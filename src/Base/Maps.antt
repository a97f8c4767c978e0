-- ===== src/Base/Maps.antt =====
-- Go's maps with string keys (also sync.Map) as association lists. No part of the program depends
-- on the order of a map's entries.
use Prim.Native.Nat.{ℕ, ◌+◌, ◌≤◌}
use mathlib.Core.Path.{◌≡◌, refl}
use mathlib.Core.Logic.{◌≢◌}
use mathlib.Core.Option.{Option, none, some}
use mathlib.Core.List.{List, [], ◌∷◌}
use native.Mathlib.Omega.{arith}
use oblireach.Base.Numbers.{◌==◌, if◌then◌else◌}
use oblireach.Base.Lists.{length}
use oblireach.Base.Text.{Bytes, text_eq, text_eq_iff}

abbrev pub Table {ℓ} : Type ℓ → Type ℓ
Table V = List (Bytes × V)

module _ {ℓ} {V : Type ℓ} where
  -- `v, ok := m[k]` and `m.Load(k)`
  unfoldable pub load : Bytes → Table V → Option V
  load k [] = none
  load k ((j, v) ∷ m) = if text_eq j k then some v else load k m

  -- `m[k] = v` and `m.Store(k, v)`
  unfoldable pub store : Bytes → V → Table V → Table V
  store k v [] = (k, v) ∷ []
  store k v ((j, w) ∷ m) = if text_eq j k then (k, v) ∷ m else (j, w) ∷ store k v m

  -- `delete(m, k)` and `m.Delete(k)`
  unfoldable pub delete : Bytes → Table V → Table V
  delete k [] = []
  delete k ((j, w) ∷ m) = let rest = delete k m in if text_eq j k then rest else (j, w) ∷ rest

  pub load-store :
      (k j : Bytes) (v : V) (m : Table V)
      → load j (store k v m) ≡ (if text_eq k j then some v else load j m)
  unfolding load store
  load-store k j v [] = refl
  load-store k j v ((i, w) ∷ m) =
      ground (arith, text_eq_iff k j, text_eq_iff i k, text_eq_iff i j, load-store k j v m)

  pub load-delete :
      (k j : Bytes) (m : Table V) → load j (delete k m) ≡ (if text_eq k j then none else load j m)
  unfolding load delete
  load-delete k j [] = ground arith
  load-delete k j ((i, w) ∷ m) =
      ground (arith, text_eq_iff k j, text_eq_iff i k, text_eq_iff i j, load-delete k j m)

  pub length-store_new :
      (k : Bytes) (v : V) (m : Table V) → load k m ≡ none → length (store k v m) ≡ length m + 1
  unfolding load store
  length-store_new k v [] e = omega arith
  length-store_new k v ((i, w) ∷ m) e = ground (arith, length-store_new k v m)

  pub length-delete-le : (k : Bytes) (m : Table V) → length (delete k m) ≤ length m
  unfolding delete
  length-delete-le k [] = omega arith
  length-delete-le k ((i, w) ∷ m) = ground (arith, length-delete-le k m)

pub ruleset table_laws = (load-store, load-delete)

-- A heap: a write at one number.
abbrev pub update {ℓ} : {A : Type ℓ} → (ℕ → A) → ℕ → A → ℕ → A
update f i v j = if i == j then v else f j

pub update_self {ℓ} : {A : Type ℓ} (f : ℕ → A) (i : ℕ) (v : A) → update f i v i ≡ v
update_self f i v = ground arith

pub update_other {ℓ} : {A : Type ℓ} (f : ℕ → A) (i j : ℕ) (v : A) → i ≢ j → update f i v j ≡ f j
update_other f i j v h = ground arith
