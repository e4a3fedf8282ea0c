-- ===== src/LruCache/Nodes.antt =====
-- The nodes of `LRUCacheWithTTL` found by key, and how the map of iterators follows the list.
use learn_spdk.Base.{
  ℕ, ◌≡◌, ◌≢◌, refl, sym, List, [], ◌∷◌, if◌then◌else◌, Option, none, some, arith, All, ◌==◌,
  ==_iff, Bool-cases, inl, inr, length, suc,
}
use learn_spdk.LruCache.{Node, is_expired, take_at}

abbrev pub Apart : Node → Node → Type 0
Apart n m = (m.address ≢ n.address) × (m.key ≢ n.key)

-- No two nodes have one address, or one key.
abbrev pub Distinct : List Node → Type 0
Distinct [] = Unit
Distinct (n ∷ ns) = All (Apart n) ns × Distinct ns

-- The address of the node of a key.
unfoldable pub index : ℕ → List Node → Option ℕ
index key [] = none
index key (n ∷ ns) = if n.key == key then some n.address else index key ns

-- The node of a key, and the list without it.
unfoldable pub take_key : ℕ → List Node → Option (Node × List Node)
take_key key [] = none
take_key key (n ∷ ns) =
    if n.key == key
    then some (n, ns)
    else elim (take_key key ns) [ none ↦ none | some (found, rest) ↦ some (found, n ∷ rest) ]

-- The nodes that have not expired.
unfoldable pub live : ℕ → List Node → List Node
live now [] = []
live now (n ∷ ns) = if is_expired n now then live now ns else n ∷ live now ns

pub index_absent : (key : ℕ) (ns : List Node) → All (λ n. n.key ≢ key) ns → index key ns ≡ none
unfolding index
index_absent key [] h = refl
index_absent key (n ∷ ns) h = ground (arith, index_absent key ns h.1)

pub index-some :
    (key a : ℕ) (n : Node) (ns : List Node)
    → All (Apart n) ns
    → index key ns ≡ some a
    → a ≢ n.address
unfolding index
index-some key a n [] d h = λ e. cc
index-some key a n (m ∷ ns) d h = ground (arith, index-some key a n ns d.1)

-- Where the index of a key is known, the node at that address is the node of the key.
pub take_at-index :
    (key a : ℕ) (ns : List Node)
    → Distinct ns
    → index key ns ≡ some a
    → take_at a ns ≡ take_key key ns
unfolding index take_at take_key
take_at-index key a [] d h = refl
take_at-index key a (n ∷ ns) d h =
    ground (arith, take_at-index key a ns d.1, index-some key a n ns d.0)

pub take_key_absent : (key : ℕ) (ns : List Node) → index key ns ≡ none → take_key key ns ≡ none
unfolding index take_key
take_key_absent key [] h = refl
take_key_absent key (n ∷ ns) h = ground (arith, take_key_absent key ns)

swap :
    (key : ℕ) (m n : Node) (rest : List Node)
    → Apart m n
    → (ns : List Node) → index key ns ≡ index key (n ∷ rest)
    → index key (m ∷ ns) ≡ index key (n ∷ m ∷ rest)
unfolding index
swap key m n rest a ns h = ground arith

-- The first list is the second one with the node in it somewhere.
pub data Taken (n : Node) : List Node → List Node → Type 0 where
  here : {ns : List Node} → Taken n (n ∷ ns) ns
  there : {m : Node} {ns rest : List Node} → Taken n ns rest → Taken n (m ∷ ns) (m ∷ rest)

pub take_key-Taken :
    (key a : ℕ) (ns : List Node)
    → index key ns ≡ some a
    → (n : Node) × (rest : List Node) × (take_key key ns ≡ some (n, rest))
      × (n.key ≡ key)
      × Taken n ns rest
unfolding index take_key
take_key-Taken key a [] h = cc
take_key-Taken key a (n ∷ ns) h = elim (Bool-cases (n.key == key)) [
  | inl e ↦ (n, ns, rw e refl, (==_iff n.key key).0 e, here)
  | inr e ↦
      let i : index key ns ≡ some a = ground arith in
      let (found, rest, q, k, t) = take_key-Taken key a ns i in
      (found, n ∷ rest, rw (e, q) refl, k, there t)
]

pub Taken-All :
    (P : Node → Type 0) {n : Node} {ns rest : List Node}
    → Taken n ns rest
    → All P ns
    → P n × All P rest
Taken-All P here h = h
Taken-All P (there t) h = let (x, xs) = Taken-All P t h.1 in (x, (h.0, xs))

pub Taken-length :
    {n : Node} {ns rest : List Node} → Taken n ns rest → length ns ≡ suc (length rest)
Taken-length here = refl
Taken-length (there t) = omega (arith, Taken-length t)

pub Taken-Distinct :
    {n : Node} {ns rest : List Node} → Taken n ns rest → Distinct ns → Distinct (n ∷ rest)
Taken-Distinct here d = d
Taken-Distinct {n} (there {m} t) d =
    let (a, b) = Taken-All (Apart m) t d.0 in
    let (c, e) = Taken-Distinct t d.1 in (((λ q. a.0 (sym q), λ q. a.1 (sym q)), c), (b, e))

-- The index of a list with distinct keys does not depend on where the node stands.
pub Taken-index :
    (key : ℕ) {n : Node} {ns rest : List Node}
    → Taken n ns rest
    → Distinct ns
    → index key ns ≡ index key (n ∷ rest)
Taken-index key here d = refl
Taken-index key {n} (there {m} {ns} {rest} t) d =
    let (a, b) = Taken-All (Apart m) t d.0 in swap key m n rest a (ns) (Taken-index key t d.1)
