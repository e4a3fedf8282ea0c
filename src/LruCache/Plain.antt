-- ===== src/LruCache/Plain.antt =====
-- The plain description of `LRUCacheWithTTL`: a list of entries, the one used last first.
use learn_spdk.Base.{
  ℕ, ◌≡◌, refl, ap, List, [], ◌∷◌, if◌then◌else◌, Option, none, some, arith, ◌==◌, leb, length,
}
use learn_spdk.LruCache.{Node, minus_one, split_last}
use learn_spdk.LruCache.Nodes.{Taken, here, there, take_key, live}

-- A key, its value and the time at which it expires.
abbrev pub Entry : Type 0
Entry = ℕ × ℕ × ℕ

abbrev pub view : List Node → List Entry
view [] = []
view (n ∷ ns) = (n.key, n.value, n.expire_time) ∷ view ns

unfoldable pub unexpired : ℕ → List Entry → List Entry
unexpired now [] = []
unexpired now ((k, v, e) ∷ xs) =
    if leb e now then unexpired now xs else (k, v, e) ∷ unexpired now xs

unfoldable pub take_entry : ℕ → List Entry → Option (Entry × List Entry)
take_entry key [] = none
take_entry key ((k, v, e) ∷ xs) =
    if k == key then some ((k, v, e), xs) else elim (take_entry key xs) [
      | none ↦ none
      | some (found, rest) ↦ some (found, (k, v, e) ∷ rest)
    ]

-- A list without its last item.
unfoldable pub drop_last : List Entry → List Entry
drop_last [] = []
drop_last (x ∷ []) = []
drop_last (x ∷ y ∷ xs) = x ∷ drop_last (y ∷ xs)

-- What `get` promises: the value of an entry that has not expired, which is then first.
abbrev pub recalled : ℕ → List Entry → ℕ × List Entry
recalled key xs = elim (take_entry key xs) [
  | none ↦ (minus_one, xs)
  | some ((k, v, e), rest) ↦ (v, (k, v, e) ∷ rest)
]

-- What `put` promises: the entry is first, and where it is new to a full cache the last one is gone.
abbrev pub stored : (key value time capacity : ℕ) → List Entry → List Entry
stored key value time capacity xs = elim (take_entry key xs) [
  | none ↦ (key, value, time) ∷ (if length xs == capacity then drop_last xs else xs)
  | some (old, rest) ↦ (key, value, time) ∷ rest
]

pub view-live : (now : ℕ) (ns : List Node) → view (live now ns) ≡ unexpired now (view ns)
unfolding live unexpired
view-live now [] = refl
view-live now (n ∷ ns) = ground (arith, view-live now ns)

pub length-view : (ns : List Node) → length (view ns) ≡ length ns
length-view [] = refl
length-view (n ∷ ns) = omega (arith, length-view ns)

abbrev pub seen : Option (Node × List Node) → Option (Entry × List Entry)
seen none = none
seen (some (n, rest)) = some ((n.key, n.value, n.expire_time), view rest)

pub take_entry-view : (key : ℕ) (ns : List Node) → take_entry key (view ns) ≡ seen (take_key key ns)
unfolding take_entry take_key
take_entry-view key [] = refl
take_entry-view key (n ∷ ns) = ground (arith, take_entry-view key ns)

-- A list that is not empty has a last node.
pub split_last-Taken :
    (n : Node) (ns : List Node)
    → (front : List Node) × (last : Node) × (split_last (n ∷ ns) ≡ some (front, last))
      × Taken last (n ∷ ns) front
      × (drop_last (view (n ∷ ns)) ≡ view front)
unfolding split_last drop_last
split_last-Taken n [] = ([], n, refl, here, refl)
split_last-Taken n (m ∷ ns) =
    let (front, last, q, t, v) = split_last-Taken m ns in
    (n ∷ front, last, rw q refl, there t, ap (λ xs. (n.key, n.value, n.expire_time) ∷ xs) v)
