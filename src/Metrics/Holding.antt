-- ===== src/Metrics/Holding.antt =====
-- Which executor of delfin/task_manager/metrics_manager.py has a storage, has room for it, or has a name.
use delfin.Prelude.{
  ℕ, zero, suc, ◌+◌, ◌≤◌, ◌<◌, ◌≡◌, refl, ap, Bool, true, false, not, ◌&&◌, ◌||◌, Option, none,
  some, List, [], ◌∷◌, ◌++◌, elem, leb, ◌==◌, if◌then◌else◌, length, length-append, arith,
  Bool-cases, inl, inr, ==_refl,
}
use delfin.Metrics.Executors.{Executor, names, holder, has_room, put_in_room, free_name}

-- How often a storage is in a list, and in the executor map.
abbrev pub count : ℕ → List ℕ → ℕ
count s [] = 0
count s (x ∷ xs) = (if s == x then 1 else 0) + count s xs

abbrev pub held : ℕ → List Executor → ℕ
held s [] = 0
held s (e ∷ es) = count s e.storages + held s es

-- No executor has more storages than the most.
abbrev pub bounded : ℕ → List Executor → Bool
bounded most [] = true
bounded most (e ∷ es) = leb (length e.storages) most && bounded most es

-- Every name is one of the `most` names.
abbrev pub in_range : ℕ → List Executor → Bool
in_range most [] = true
in_range most (e ∷ es) = leb 1 e.name && leb e.name most && in_range most es

-- The name of an executor that has the storage.
abbrev pub has : ℕ → ℕ → List Executor → Bool
has s n [] = false
has s n (e ∷ es) = e.name == n && elem s e.storages || has s n es

pub count-append : (s : ℕ) (xs ys : List ℕ) → count s (xs ++ ys) ≡ count s xs + count s ys
count-append s [] ys = omega arith
count-append s (x ∷ xs) ys = ground (arith, count-append s xs ys)

pub held-append : (s : ℕ) (es fs : List Executor) → held s (es ++ fs) ≡ held s es + held s fs
held-append s [] fs = omega arith
held-append s (e ∷ es) fs = ground (arith, held-append s es fs)

count-elem : (s : ℕ) (xs : List ℕ) → elem s xs ≡ false → count s xs ≡ 0
count-elem s [] h = refl
count-elem s (x ∷ xs) h = ground (arith, count-elem s xs)

elem_last : (s : ℕ) (xs : List ℕ) → elem s (xs ++ s ∷ []) ≡ true
elem_last s [] = ground (arith, ==_refl s)
elem_last s (x ∷ xs) = ground (arith, elem_last s xs)

pub holder-held : (s : ℕ) (es : List Executor) → holder s es ≡ none → held s es ≡ 0
holder-held s [] h = refl
holder-held s (e ∷ es) h = elim (Bool-cases (elem s e.storages)) [
  | inl y ↦ absurd (ground arith)
  | inr n ↦
      let c = count-elem s e.storages n in
      let rest = holder-held s es (ground arith) in ground arith
]

pub holder-has : (s n : ℕ) (es : List Executor) → holder s es ≡ some n → has s n es ≡ true
holder-has s n [] h = absurd (ground arith)
holder-has s n (e ∷ es) h = elim (Bool-cases (elem s e.storages)) [
  | inl y ↦ ground (arith, ==_refl n)
  | inr f ↦ let rest = holder-has s n es (ground arith) in ground arith
]

-- An executor that can take another storage: it has at least one and less than the most.
abbrev pub is_open : ℕ → Executor → Bool
is_open most e = leb 1 (length e.storages) && leb (suc (length e.storages)) most

-- The executor `n` can take another storage.
abbrev pub open_in : ℕ → ℕ → List Executor → Bool
open_in most n [] = false
open_in most n (e ∷ es) = e.name == n && is_open most e || open_in most n es

-- No executor can.
abbrev pub none_open : ℕ → List Executor → Bool
none_open most [] = true
none_open most (e ∷ es) = not (is_open most e) && none_open most es

-- The executor `n` could take the storage and has it now, the names are the same, no executor has too many storages, and
-- nothing else has changed.
pub record Added (most s n : ℕ) (es es' : List Executor) : Type 0 where
  pub was_open : open_in most n es ≡ true
  pub same_names : names es' ≡ names es
  pub added : has s n es' ≡ true
  pub still_bounded : bounded most es ≡ true → bounded most es' ≡ true
  pub counts : (t : ℕ) → held t es' ≡ held t es + count t (s ∷ [])

abbrev pub Fits : (most s : ℕ) → List Executor → Option (ℕ × List Executor) → Type 0
Fits most s es none = none_open most es ≡ true
Fits most s es (some p) = Added most s p.0 es p.1

append_one :
    (most s : ℕ) (e : Executor) (es : List Executor)
    → has_room most e ≡ true
    → Added most s e.name (e ∷ es) (record e { storages = e.storages ++ s ∷ [] } ∷ es)
append_one most s e es h = record {
  was_open = ground (arith, ==_refl e.name);
  same_names = refl;
  added = let l = elem_last s e.storages in let q = ==_refl e.name in ground arith;
  still_bounded = λ b. let l = length-append e.storages (s ∷ []) in ground arith;
  counts = λ t. let l = count-append t e.storages (s ∷ []) in ground arith;
}

behind :
    (most s : ℕ) (e : Executor) (es : List Executor) (o : Option (ℕ × List Executor))
    → has_room most e ≡ false
    → Fits most s es o
    → Fits most s (e ∷ es) (elim o [ none ↦ none | some p ↦ some (p.0, e ∷ p.1) ])
behind most s e es none h f = ground arith
behind most s e es (some p) h f = record {
  was_open = let o = f.was_open in ground arith;
  same_names = ap (λ ns. e.name ∷ ns) f.same_names;
  added = let a = f.added in ground arith;
  still_bounded = λ b. let c = f.still_bounded (ground arith) in ground arith;
  counts = λ t. let c = f.counts t in ground arith;
}

pub put_in_room_lem : (most s : ℕ) (es : List Executor) → Fits most s es (put_in_room most s es)
put_in_room_lem most s [] = refl
put_in_room_lem most s (e ∷ es) = elim (Bool-cases (has_room most e)) [
  | inl y ↦ rw y (append_one most s e es y)
  | inr f ↦ rw f (behind most s e es (put_in_room most s es) f (put_in_room_lem most s es))
]

pub free_name-taken :
    (taken : List ℕ) (n c k : ℕ)
    → free_name taken n c ≡ some k
    → (elem k taken ≡ false) × (n ≤ k) × (k < n + c)
free_name-taken taken n zero k h = absurd (ground arith)
free_name-taken taken n (suc c) k h = elim (Bool-cases (elem n taken)) [
  | inl y ↦
      let (a, b, d) = free_name-taken taken (suc n) c k (ground arith) in
      (a, ground arith, ground arith)
  | inr f ↦ (ground arith, ground arith, ground arith)
]
