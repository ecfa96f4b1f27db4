-- ===== src/DashMap.antt =====
-- The concurrent map that gateway-state/src/lib.rs keeps its state in (crate `dashmap`, which is
-- no part of the repository): an interface of the operations that the gateway calls, with their
-- documented behaviour. Each call locks the shard of its key, so it is one atomic step.
pub mod Assoc
use ic_websocket_gateway.Prelude.{ℕ, suc, ◌≡◌, ◌↔◌, Option, none, some, ite}

-- What `insert` does to the number of entries: one more, unless it replaced a value.
abbrev pub grown {ℓ} : {V : Type ℓ} → Option V → ℕ → ℕ
grown none n = suc n
grown (some _) n = n

pub record DashMap : Type 1 where
  pub Map : Type 0 → Type 0 → Type 0
  pub new : {K V : Type 0} → Discrete K → Map K V
  pub get : {K V : Type 0} → Discrete K → Map K V → K → Option V
  pub insert : {K V : Type 0} → Discrete K → K → V → Map K V → Map K V
  pub remove : {K V : Type 0} → Discrete K → K → Map K V → Map K V
  pub len : {K V : Type 0} → Discrete K → Map K V → ℕ
  pub get-new : {K V : Type 0} (dec : Discrete K) (k : K) → get dec (new {V = V} dec) k ≡ none
  pub get-insert :
      {K V : Type 0} (dec : Discrete K) (k : K) (v : V) (m : Map K V) (j : K)
      → get dec (insert dec k v m) j ≡ ite (dec j k) (some v) (get dec m j)
  pub get-remove :
      {K V : Type 0} (dec : Discrete K) (k : K) (m : Map K V) (j : K)
      → get dec (remove dec k m) j ≡ ite (dec j k) none (get dec m j)
  pub len-new : {K V : Type 0} (dec : Discrete K) → len dec (new {V = V} dec) ≡ 0
  pub len-insert :
      {K V : Type 0} (dec : Discrete K) (k : K) (v : V) (m : Map K V)
      → len dec (insert dec k v m) ≡ grown (get dec m k) (len dec m)
  pub len-remove :
      {K V : Type 0} (dec : Discrete K) (k : K) (m : Map K V)
      → grown (get dec m k) (len dec m) ≡ suc (len dec (remove dec k m))
  pub len-eq-zero_iff :
      {K V : Type 0} (dec : Discrete K) (m : Map K V)
      → (len dec m ≡ 0) ↔ ((k : K) → get dec m k ≡ none)
