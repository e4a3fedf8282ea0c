-- ===== src/LruCache/Client.antt =====
-- What a client of `LRUCacheWithTTL` sees of `get` after `put`, and of an entry that expires in
-- between the two readings of the clock in one `get`.
use learn_spdk.Base.{
  Bool-cases, ◌==◌, ==_iff, [], some_injective, ℕ, ◌+◌, ◌≡◌, refl, sym, subst, ◌∙◌, ap, List, ◌∷◌,
  true, false, none, some, arith, All, ==_refl, leb, Option-cases, inl, inr, ◌≤◌, ◌<◌,
}
use learn_spdk.LruCache.{Node, LruCacheWithTtl, clean_expire, take_at, get, get_clean, get_at, put}
use learn_spdk.LruCache.Nodes.{
  Apart, Taken, Taken-Distinct, take_key-Taken, index, take_key, live, take_at-index,
  take_key_absent,
}
use learn_spdk.LruCache.Forms.{IsWellFormed, clean_expire-IsWellFormed, clean_expire-live}
use learn_spdk.LruCache.Plain.{Entry, view, unexpired, take_entry, recalled, stored}
use learn_spdk.LruCache.Refine.{IsAllocator, get_lem, put_lem}

first_recalled :
    (key value time now : ℕ) (xs : List Entry)
    → now < time
    → (recalled key (unexpired now ((key, value, time) ∷ xs))).0 ≡ value
unfolding unexpired take_entry
first_recalled key value time now xs h =
    let e : leb time now ≡ false = ground arith in rw (e, recalled, take_entry, ==_refl key) refl

stored_first :
    (key value time capacity now : ℕ) (xs : List Entry)
    → now < time
    → (recalled key (unexpired now (stored key value time capacity xs))).0 ≡ value
unfolding unexpired take_entry
stored_first key value time capacity now xs h = elim (Option-cases (take_entry key xs)) [
  | inl e ↦ rw (e, stored) (first_recalled key value time now _ h)
  | inr ((old, rest), e) ↦ rw (e, stored) (first_recalled key value time now _ h)
]

-- After a `put` on a well-formed cache that may hold something, with any allocator that gives no
-- address which the list has at that moment, a `get` of the same key before the new time has come
-- returns the value, if no entry expires between the readings in that `get`.
pub get-put :
    (key value now later now' later' : ℕ) (malloc : List Node → ℕ) (s t : LruCacheWithTtl)
    → IsWellFormed s
    → 0 < s.capacity
    → IsAllocator malloc
    → put key value now later malloc s ≡ some t
    → now' < later + s.ttl
    → All (λ n. later' < n.expire_time) (live now' t.cache)
    → (u : LruCacheWithTtl) × (get key now' later' t ≡ some (value, u))
get-put key value now later now' later' malloc s t w c f p b h =
    let (t', q, g, v) = put_lem key value now later malloc s w c f in
    let e : t' ≡ t = cc in
    let (u, found, r, _, m) = get_lem key now' later' t (subst IsWellFormed e g) h in
    let seen = ap (λ x. view x.cache) (sym e) ∙ v in
    let val : found ≡ value =
      ap (λ x. x.0) m
      ∙ (ap (λ x. (recalled key (unexpired now' x)).0) seen
          ∙ stored_first key value (later + s.ttl) s.capacity now' _ b) in
    (u, r ∙ ap (λ x. some (x, u)) val)

-- The node at an address has that address, and the others have not.
take_at-address :
    (a : ℕ) (ns : List Node) (n : Node) (rest : List Node)
    → take_at a ns ≡ some (n, rest)
    → n.address ≡ a
unfolding take_at
take_at-address a [] n rest h = cc
take_at-address a (m ∷ ns) n rest h = elim (Bool-cases (m.address == a)) [
  | inl e ↦
      let f : take_at a (m ∷ ns) ≡ some (m, ns) = rw (take_at, e) refl in
      let g = ap (λ x. x.0) (some_injective (m, ns) (n, rest) (sym f ∙ h)) in
      ap (λ x. x.address) (sym g) ∙ (==_iff m.address a).0 e
  | inr e ↦ elim (Option-cases (take_at a ns)) [
    | inl g ↦ (let f : take_at a (m ∷ ns) ≡ none = rw (take_at, e, g) refl in cc)
    | inr ((found, others), g) ↦
        let f : take_at a (m ∷ ns) ≡ some (found, m ∷ others) = rw (take_at, e, g) refl in
        let q = ap (λ x. x.0) (some_injective (found, m ∷ others) (n, rest) (sym f ∙ h)) in
        ap (λ x. x.address) (sym q) ∙ take_at-address a ns found others g
  ]
]

take_at_absent : (n : Node) (ns : List Node) → All (Apart n) ns → take_at n.address ns ≡ none
unfolding take_at
take_at_absent n [] h = refl
take_at_absent n (m ∷ ns) h = ground (arith, take_at_absent n ns h.1)

get_clean_undefined :
    (key later : ℕ) (s : LruCacheWithTtl) (n : Node) (rest : List Node)
    → IsWellFormed s
    → take_key key s.cache ≡ some (n, rest)
    → n.expire_time ≤ later
    → get_clean key later s ≡ none
unfolding get_clean get_at
get_clean_undefined key later s n rest w q b = elim (Option-cases (s.key_map key)) [
  | inl e ↦ let absent = take_key_absent key s.cache (sym (w.indexed key) ∙ e) in cc
  | inr (a, e) ↦
      let i : index key s.cache ≡ some a = sym (w.indexed key) ∙ e in
      let at : take_at a s.cache ≡ some (n, rest) = take_at-index key a s.cache w.distinct i ∙ q in
      let late : leb n.expire_time later ≡ true = ground arith in
      let (m, others, r, k, t) = take_key-Taken key a s.cache i in
      let same : (m, others) ≡ (n, rest) = some_injective (m, others) (n, rest) (sym r ∙ q) in
      let t' = subst (λ x. Taken x.0 s.cache x.1) same t in
      let gone : take_at a rest ≡ none =
        subst (λ x. take_at x rest ≡ none) (take_at-address a s.cache n rest at)
          (take_at_absent n rest (Taken-Distinct t' w.distinct).0) in
      rw (e, get_clean, at, get_at, late, gone) refl
]

-- Where the entry of the key has not expired at the first reading of the clock in `get` and has at
-- the second, no node is left at the address that `get` reads after it has erased the node there,
-- which is undefined.
pub get_undefined :
    (key now later : ℕ) (s : LruCacheWithTtl) (n : Node) (rest : List Node)
    → IsWellFormed s
    → take_key key (live now s.cache) ≡ some (n, rest)
    → n.expire_time ≤ later
    → get key now later s ≡ none
unfolding get
get_undefined key now later s n rest w q b =
    get_clean_undefined key later (clean_expire now s) n rest (clean_expire-IsWellFormed now s w)
      (rw (clean_expire-live now s) q) b
