-- ===== src/DashMap/Assoc.antt =====
-- An association list with distinct keys has every behaviour that `DashMap` asks for.
use ic_websocket_gateway.Prelude.{
  suc, ◌≡◌, ◌≢◌, refl, sym, List, [], ◌∷◌, Option, none, some, ite, if_pos, if_neg, arith, length,
}
use ic_websocket_gateway.DashMap.{DashMap, grown}

module _ {K V : Type 0} where
  -- No entry of the list has the key.
  abbrev pub Absent : K → List (K × V) → Type 0
  Absent k [] = Unit
  Absent k ((j, w) ∷ l) = (k ≢ j) × Absent k l

  abbrev pub Distinct : List (K × V) → Type 0
  Distinct [] = Unit
  Distinct ((j, w) ∷ l) = Absent j l × Distinct l

module _ {K V : Type 0} (dec : Discrete K) where
  unfoldable pub lookup : List (K × V) → K → Option V
  lookup [] j = none
  lookup ((k, v) ∷ l) j = ite (dec j k) (some v) (lookup l j)

  unfoldable pub erase : K → List (K × V) → List (K × V)
  erase k [] = []
  erase k ((j, w) ∷ l) = ite (dec k j) l ((j, w) ∷ erase k l)

  lookup-Absent : (k : K) (l : List (K × V)) → Absent k l → lookup l k ≡ none
  unfolding lookup
  lookup-Absent k [] a = refl
  lookup-Absent k ((j, w) ∷ l) a = rw (if_neg _ a.0) (lookup-Absent k l a.1)

  erase-Absent : (i k : K) (l : List (K × V)) → Absent i l → Absent i (erase k l)
  unfolding erase
  erase-Absent i k [] a = tt
  erase-Absent i k ((j, w) ∷ l) a = elim (dec k j) [
    | yes p ↦ rw (if_pos _ p) a.1
    | no p ↦ rw (if_neg _ p) (a.0, erase-Absent i k l a.1)
  ]

  pub Absent-erased : (k : K) (l : List (K × V)) → Distinct l → Absent k (erase k l)
  unfolding erase
  Absent-erased k [] d = tt
  Absent-erased k ((j, w) ∷ l) d = elim (dec k j) [
    | yes p ↦ rw (if_pos _ p, p) d.0
    | no p ↦ rw (if_neg _ p) (p, Absent-erased k l d.1)
  ]

  pub erase-Distinct : (k : K) (l : List (K × V)) → Distinct l → Distinct (erase k l)
  unfolding erase
  erase-Distinct k [] d = tt
  erase-Distinct k ((j, w) ∷ l) d = elim (dec k j) [
    | yes p ↦ rw (if_pos _ p) d.1
    | no p ↦ rw (if_neg _ p) (erase-Absent j k l d.0, erase-Distinct k l d.1)
  ]

  lookup-erase_ne : (k : K) (l : List (K × V)) (j : K) → j ≢ k → lookup (erase k l) j ≡ lookup l j
  unfolding lookup erase
  lookup-erase_ne k [] j h = refl
  lookup-erase_ne k ((i, w) ∷ l) j h = elim (dec k i) [
    | yes p ↦ rw (if_pos _ p, if_neg _ (λ (e : j ≡ i). h (cc)))
    | no p ↦ rw (if_neg _ p) (ground (arith, lookup-erase_ne k l j h))
  ]

  pub lookup-erase :
      (k : K) (l : List (K × V)) (j : K)
      → Distinct l
      → lookup (erase k l) j ≡ ite (dec j k) none (lookup l j)
  lookup-erase k l j d = elim (dec j k) [
    | yes p ↦ rw (if_pos _ p, p) (lookup-Absent k (erase k l) (Absent-erased k l d))
    | no p ↦ rw (if_neg _ p) (lookup-erase_ne k l j p)
  ]

  pub length-erase :
      (k : K) (l : List (K × V)) → grown (lookup l k) (length l) ≡ suc (length (erase k l))
  unfolding lookup erase
  length-erase k [] = refl
  length-erase k ((j, w) ∷ l) = elim (dec k j) [
    | yes p ↦ rw (if_pos _ p, if_pos _ p)
    | no p ↦ ground (arith, length-erase k l)
  ]

  pub lookup_all_none : (l : List (K × V)) → ((k : K) → lookup l k ≡ none) → length l ≡ 0
  unfolding lookup
  lookup_all_none [] h = refl
  lookup_all_none ((j, w) ∷ l) h = absurd (ground (arith, h j))

-- The keys are distinct, so the order of the entries shows in no lookup.
abbrev pub Entries : Type 0 → Type 0 → Type 0
Entries K V = (l : List (K × V)) × Distinct l

pub get_lem :
    {K V : Type 0} (dec : Discrete K) (k : K) (v : V) (m : Entries K V) (j : K)
    → lookup dec ((k, v) ∷ erase dec k m.0) j ≡ ite (dec j k) (some v) (lookup dec m.0 j)
unfolding lookup
get_lem dec k v m j = elim (dec j k) [
  | yes p ↦ rw (if_pos _ p, if_pos _ p)
  | no p ↦ rw (if_neg _ p, if_neg _ p) (lookup-erase_ne dec k m.0 j p)
]

pub length_insert_lem :
    {K V : Type 0} (dec : Discrete K) (k : K) (v : V) (m : Entries K V)
    → suc (length (erase dec k m.0)) ≡ grown (lookup dec m.0 k) (length m.0)
length_insert_lem dec k v m = sym (length-erase dec k m.0)

pub lookup_nil_of_length :
    {K V : Type 0} (dec : Discrete K) (l : List (K × V))
    → length l ≡ 0
    → (k : K) → lookup dec l k ≡ none
unfolding lookup
lookup_nil_of_length dec [] h k = refl
lookup_nil_of_length dec (e ∷ l) h k = absurd (omega arith)

pub lookup_nil : {K V : Type 0} (dec : Discrete K) (k : K) → lookup {V = V} dec [] k ≡ none
unfolding lookup
lookup_nil dec k = refl

unfoldable pub assoc : DashMap
unfolding lookup erase
assoc = record {
  Map = Entries;
  new = λ _. ([], tt);
  get = λ dec m k. lookup dec m.0 k;
  insert = λ dec k v m.
      ((k, v) ∷ erase dec k m.0, (Absent-erased dec k m.0 m.1, erase-Distinct dec k m.0 m.1));
  remove = λ dec k m. (erase dec k m.0, erase-Distinct dec k m.0 m.1);
  len = λ dec m. length m.0;
  get-new = λ dec k. lookup_nil dec k;
  get-insert = λ dec k v m j. get_lem dec k v m j;
  get-remove = λ dec k m j. lookup-erase dec k m.0 j m.1;
  len-new = λ _. refl;
  len-insert = λ dec k v m. length_insert_lem dec k v m;
  len-remove = λ dec k m. length-erase dec k m.0;
  len-eq-zero_iff = λ dec m. (lookup_nil_of_length dec m.0, lookup_all_none dec m.0);
}
