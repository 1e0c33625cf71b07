-- ===== src/Prelude/Recent.antt =====
-- Dicts keyed by numbers of which the greatest keys are kept, and what stays of them.
use Prim.Native.Nat.{ℕ, suc, ◌+◌, ◌-◌, ◌≤◌, ◌<◌}
use mathlib.Core.Path.{◌≡◌, refl, ap, sym, ◌∙◌}
use mathlib.Core.Bool.{true, false}
use mathlib.Core.Option.{none, some}
use mathlib.Core.List.{List, [], ◌∷◌}
use native.Mathlib.Omega.{arith}
use telegram_auto.Prelude.Tests.{if◌then◌else◌, ◌==◌, nat_eq}
use telegram_auto.Prelude.Lists.{length, take, All, contains}
use telegram_auto.Prelude.Dict
use telegram_auto.Prelude.Dict.{Dict, keys, lookup-insert, lookup-erase}
use telegram_auto.Prelude.Numbers.{
  sort, Nodup, take-sort_max, contains-sort, sort-Nodup, contains-take, take-Nodup, length-take-le,
  length-sort,
}

pub length-keys-pos : (k : ℕ) (ks : List ℕ) → contains ks k ≡ true → 0 < length ks
unfolding contains
length-keys-pos k [] h = cc
length-keys-pos k (j ∷ ks) h = omega arith

module _ {V : Type 0} where
  -- the loop that pops the keys of a list
  unfoldable pub pop_keys : List ℕ → Dict ℕ V → Dict ℕ V
  pop_keys [] d = d
  pop_keys (old ∷ olds) d = pop_keys olds (Dict.erase old d)

  -- `for old in sorted(d)[:-keep]: d.pop(old, None)`
  unfoldable pub keep_last : ℕ → Dict ℕ V → Dict ℕ V
  unfolding pop_keys sort
  keep_last keep d = pop_keys (take (length (keys d) - keep) (sort (keys d))) d

  pub lookup-pop_keys :
      (k : ℕ) (olds : List ℕ) (d : Dict ℕ V)
      → contains olds k ≡ false
      → Dict.lookup k (pop_keys olds d) ≡ Dict.lookup k d
  unfolding pop_keys contains
  lookup-pop_keys k [] d h = refl
  lookup-pop_keys k (old ∷ olds) d h =
      lookup-pop_keys k olds (Dict.erase old d) (ground arith)
      ∙ ground (arith, lookup-erase k old d)

  pub contains-keys :
      (k : ℕ) (d : Dict ℕ V) (c : V) → Dict.lookup k d ≡ some c → contains (keys d) k ≡ true
  unfolding contains Dict.lookup
  contains-keys k [] c h = cc
  contains-keys k ((j, v) ∷ d) c h = ground (arith, contains-keys k d c)

  -- Pruning keeps the newest day.
  pub lookup-keep_last :
      (keep day : ℕ) (d : Dict ℕ V) (c : V)
      → 0 < keep
      → Nodup (keys d)
      → All (λ k. k ≤ day) (keys d)
      → Dict.lookup day d ≡ some c
      → Dict.lookup day (keep_last keep d) ≡ some c
  unfolding keep_last
  lookup-keep_last keep day d c pos u newest h =
      let found = contains-keys day d c h in
      let nonempty = length-keys-pos day (keys d) found in
      lookup-pop_keys day (take (length (keys d) - keep) (sort (keys d))) d
        (take-sort_max (length (keys d) - keep) day (keys d) (omega arith) found newest u)
      ∙ h

  pub contains-keys-insert :
      (j k : ℕ) (c : V) (d : Dict ℕ V)
      → contains (keys (Dict.insert k c d)) j ≡ (if j == k then true else contains (keys d) j)
  unfolding Dict.insert contains
  contains-keys-insert j k c [] = ground arith
  contains-keys-insert j k c ((i, v) ∷ d) = ground (arith, contains-keys-insert j k c d)

  pub insert-Nodup :
      (k : ℕ) (c : V) (d : Dict ℕ V) → Nodup (keys d) → Nodup (keys (Dict.insert k c d))
  unfolding Dict.insert contains
  insert-Nodup k c [] u = (refl, tt)
  insert-Nodup k c ((j, v) ∷ d) u =
      ground (arith, insert-Nodup k c d u.1, contains-keys-insert j k c d)

  pub insert-newest :
      (k : ℕ) (c : V) (d : Dict ℕ V)
      → All (λ j. j ≤ k) (keys d)
      → All (λ j. j ≤ k) (keys (Dict.insert k c d))
  unfolding Dict.insert
  insert-newest k c [] h = (omega arith, tt)
  insert-newest k c ((j, v) ∷ d) h = ground (arith, insert-newest k c d h.1)

  pub contains-keys-erase :
      (j k : ℕ) (d : Dict ℕ V)
      → contains (keys (Dict.erase k d)) j ≡ (if j == k then false else contains (keys d) j)
  unfolding Dict.erase contains
  contains-keys-erase j k [] = ground arith
  contains-keys-erase j k ((i, v) ∷ d) = ground (arith, contains-keys-erase j k d)

  pub erase-Nodup : (k : ℕ) (d : Dict ℕ V) → Nodup (keys d) → Nodup (keys (Dict.erase k d))
  unfolding Dict.erase
  erase-Nodup k [] u = tt
  erase-Nodup k ((j, v) ∷ d) u = ground (arith, erase-Nodup k d u.1, contains-keys-erase j k d)

  pub erase-newest :
      (k day : ℕ) (d : Dict ℕ V)
      → All (λ j. j ≤ day) (keys d)
      → All (λ j. j ≤ day) (keys (Dict.erase k d))
  unfolding Dict.erase
  erase-newest k day [] h = tt
  erase-newest k day ((j, v) ∷ d) h = ground (arith, erase-newest k day d h.1)

  pub length-keys : (d : Dict ℕ V) → length (keys d) ≡ length d
  length-keys [] = refl
  length-keys ((k, c) ∷ d) = ap suc (length-keys d)

  pub length-erase :
      (k : ℕ) (d : Dict ℕ V) → contains (keys d) k ≡ true → length (Dict.erase k d) + 1 ≤ length d
  unfolding Dict.erase contains
  length-erase k [] h = cc
  length-erase k ((j, c) ∷ d) h = ground (arith, length-erase k d, length-erase-le k d)
    where
      length-erase-le : (k : ℕ) (d : Dict ℕ V) → length (Dict.erase k d) ≤ length d
      length-erase-le k [] = omega arith
      length-erase-le k ((j, c) ∷ d) = ground (arith, length-erase-le k d)

  pub length-pop_keys :
      (olds : List ℕ) (d : Dict ℕ V)
      → Nodup olds
      → ((k : ℕ) → contains olds k ≡ true → contains (keys d) k ≡ true)
      → length (pop_keys olds d) + length olds ≤ length d
  unfolding pop_keys contains
  length-pop_keys [] d u sub = omega arith
  length-pop_keys (old ∷ olds) d u sub =
      let one = length-erase old d (sub old (ground arith)) in
      let rest =
        length-pop_keys olds (Dict.erase old d) u.1
          (λ k h. ground (arith, contains-keys-erase k old d, sub k, u.0)) in
      omega arith

  -- No bucket keeps more days than `_prune` is told to keep.
  pub length-keep_last :
      (keep : ℕ) (d : Dict ℕ V) → Nodup (keys d) → length (keep_last keep d) ≤ keep
  unfolding keep_last
  length-keep_last keep d u =
      let m : ℕ = length (keys d) - keep in
      let ks = sort (keys d) in
      let fits : m ≤ length ks = omega (arith, length-sort (keys d)) in
      let bound =
        length-pop_keys (take m ks) d (take-Nodup m ks (sort-Nodup (keys d) u))
          (λ k h. sym (contains-sort k (keys d)) ∙ contains-take k m ks h) in
      omega (arith, length-take-le m ks fits, length-keys d)

  pub pop_keys-none :
      (k : ℕ) (olds : List ℕ) (d : Dict ℕ V)
      → Dict.lookup k d ≡ none
      → Dict.lookup k (pop_keys olds d) ≡ none
  unfolding pop_keys
  pop_keys-none k [] d h = h
  pop_keys-none k (old ∷ olds) d h =
      pop_keys-none k olds (Dict.erase old d) (ground (arith, lookup-erase k old d))
