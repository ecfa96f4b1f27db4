-- ===== src/Startup/Gives.antt =====
-- What holds of the result of a step and of the world that it leaves, if it returns.
use ic_websocket_gateway.Prelude.{
  String, ◌≡◌, refl, subst, ap, sym, ◌∙◌, Bool, true, false, Option, none, some, arith,
}
use ic_websocket_gateway.Startup.Steps.{
  Program, World, Step, returns, exits, panics, expect, join, ◌>>=◌, after,
}

abbrev pub is_some : {A : Type 0} → Option A → Bool
is_some none = false
is_some (some _) = true

-- What holds if a step returns from the world.
abbrev pub Gives : {A : Type 0} → Program A → World → (A → World → Type 0) → Type 0
Gives {A} m w Q = (a : A) → (m w).1 ≡ returns a → Q a (m w).0

after-Gives :
    {A B : Type 0} (w : World) (s : Step A) (f : A → Program B) (Q : A → World → Type 0)
    (R : B → World → Type 0)
    → ((a : A) → s ≡ returns a → Q a w)
    → ((a : A) (w' : World) → Q a w' → Gives (f a) w' R)
    → (b : B) → (after (w, s) f).1 ≡ returns b
    → R b (after (w, s) f).0
after-Gives w (returns a) f Q R first each b e = each a w (first a refl) b e
after-Gives w (exits x) f Q R first each b e = absurd (ground arith)
after-Gives w (panics m) f Q R first each b e = absurd (ground arith)

pub bind-Gives :
    {A B : Type 0} (m : Program A) (f : A → Program B) (w : World) (Q : A → World → Type 0)
    (R : B → World → Type 0)
    → Gives m w Q
    → ((a : A) (w' : World) → Q a w' → Gives (f a) w' R)
    → Gives (m >>= f) w R
bind-Gives m f w Q R first each b e = after-Gives (m w).0 (m w).1 f Q R first each b e

pub expect-returns :
    {A : Type 0} (message : String) (m : Program A) (w : World) (a : A)
    → (expect message m w).1 ≡ returns a
    → expect message m w ≡ m w
expect-returns message m w a e = ground arith

pub join-returns :
    {A : Type 0} (message : String) (m : Program A) (w : World) (a : A)
    → (join message m w).1 ≡ returns a
    → join message m w ≡ m w
join-returns message m w a e = ground arith

pub same-Gives :
    {A : Type 0} (m n : Program A) (w : World) (Q : A → World → Type 0)
    → ((a : A) → (n w).1 ≡ returns a → n w ≡ m w)
    → Gives m w Q
    → Gives n w Q
same-Gives m n w Q same gives a e =
    let s = same a e in subst (λ r. Q a r.0) (sym s) (gives a (ap (λ r. r.1) (sym s) ∙ e))
