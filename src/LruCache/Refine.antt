-- ===== src/LruCache/Refine.antt =====
-- `get` and `put` of `LRUCacheWithTTL` against the plain description.
use learn_spdk.Base.{
  ℕ, ◌+◌, ◌≡◌, ◌≢◌, refl, sym, ◌∙◌, List, [], ◌∷◌, false, if◌then◌else◌, none, some, arith, All,
  ◌==◌, ==_iff, leb, Bool-cases, Option-cases, inl, inr, length, ◌<◌,
}
use learn_spdk.LruCache.{
  Node, LruCacheWithTtl, unmap, minus_one, clean_expire, take_at, get, get_clean, get_at,
  split_last, evict, emplace, renew, put, put_clean,
}
use learn_spdk.LruCache.Nodes.{
  Taken, index, live, take_at-index, take_key_absent, take_key-Taken, Taken-All, Taken-index,
  Taken-length,
}
use learn_spdk.LruCache.Plain.{
  view, unexpired, drop_last, recalled, stored, view-live, length-view, take_entry-view,
  split_last-Taken,
}
use learn_spdk.LruCache.Forms.{
  IsWellFormed, clean_expire-IsWellFormed, clean_expire-live, moved-IsWellFormed,
  emplace-IsWellFormed, evicted-IsWellFormed,
}

-- What `emplace_front` relies on of the allocator: an address that is in use is not given again.
abbrev pub IsAllocator : (List Node → ℕ) → Type 0
IsAllocator malloc = (ns : List Node) → All (λ n. n.address ≢ malloc ns) ns

nonempty_split :
    (ns : List Node)
    → 0 < length ns
    → (front : List Node) × (last : Node) × (split_last ns ≡ some (front, last))
      × Taken last ns front
      × (drop_last (view ns) ≡ view front)
nonempty_split [] h = ground arith
nonempty_split (n ∷ ns) h = split_last-Taken n ns

get_clean-eq :
    (key later : ℕ) (s : LruCacheWithTtl)
    → IsWellFormed s
    → All (λ n. later < n.expire_time) s.cache
    → (t : LruCacheWithTtl) × (value : ℕ) × (get_clean key later s ≡ some (value, t))
      × IsWellFormed t
      × ((value, view t.cache) ≡ recalled key (view s.cache))
unfolding get_clean get_at
get_clean-eq key later s w h = elim (Option-cases (s.key_map key)) [
  | inl e ↦
      let absent = take_key_absent key s.cache (sym (w.indexed key) ∙ e) in
      (
        s,
        minus_one,
        rw (e, get_clean) refl,
        w,
        rw (take_entry-view key s.cache, absent, recalled) refl,
      )
  | inr (a, e) ↦
      let i : index key s.cache ≡ some a = sym (w.indexed key) ∙ e in
      let (n, rest, q, k, t) = take_key-Taken key a s.cache i in
      let at : take_at a s.cache ≡ some (n, rest) = take_at-index key a s.cache w.distinct i ∙ q in
      let fresh : leb n.expire_time later ≡ false =
        (let x = (Taken-All (λ m. later < m.expire_time) t h).0 in ground (arith, x)) in
      (
        record { ttl = s.ttl; capacity = s.capacity; cache = n ∷ rest; key_map = s.key_map },
        n.value,
        rw (e, get_clean, at, get_at, fresh) refl,
        moved-IsWellFormed s n rest n.value n.expire_time w t,
        rw (take_entry-view key s.cache, q, recalled) refl,
      )
]

-- `get` of `LRUCacheWithTTL` on a well-formed cache, where no entry expires between the two readings
-- of the clock, returns the value of the key, or -1 where there is no entry that has not expired;
-- what has expired is gone, the entry found is first, and the cache is again well formed.
pub get_lem :
    (key now later : ℕ) (s : LruCacheWithTtl)
    → IsWellFormed s
    → All (λ n. later < n.expire_time) (live now s.cache)
    → (t : LruCacheWithTtl) × (value : ℕ) × (get key now later s ≡ some (value, t))
      × IsWellFormed t
      × ((value, view t.cache) ≡ recalled key (unexpired now (view s.cache)))
unfolding get
get_lem key now later s w h =
    let l = clean_expire-live now s in
    rw (sym (view-live now s.cache), sym l)
      (get_clean-eq key later (clean_expire now s) (clean_expire-IsWellFormed now s w) (rw l h))

index_rest : (key : ℕ) (n : Node) (ns : List Node) → index key (n ∷ ns) ≡ none → index key ns ≡ none
unfolding index
index_rest key n ns h = ground arith

put_new :
    (key value later : ℕ) (malloc : List Node → ℕ) (s : LruCacheWithTtl)
    → IsWellFormed s
    → 0 < s.capacity
    → IsAllocator malloc
    → index key s.cache ≡ none
    → (t : LruCacheWithTtl) × (evict s ≡ some t)
      × (t.ttl ≡ s.ttl)
      × IsWellFormed (emplace key value later (malloc t.cache) t)
      × (view t.cache ≡ (
          if length (view s.cache) == s.capacity then drop_last (view s.cache) else view s.cache))
unfolding evict
put_new key value later malloc s w c f i = elim (Bool-cases (length s.cache == s.capacity)) [
  | inr e ↦ (
    s,
    rw e refl,
    refl,
    emplace-IsWellFormed key value later (malloc s.cache) s w
        (let b = w.bounded in ground (arith, b, e)) (f s.cache) i,
    rw (length-view s.cache, e) refl,
  )
  | inl e ↦
      let full : length s.cache ≡ s.capacity = (==_iff (length s.cache) s.capacity).0 e in
      let (front, last, q, t, v) = nonempty_split s.cache (omega (arith, full, c)) in
      (
        record {
          ttl = s.ttl;
          capacity = s.capacity;
          cache = front;
          key_map = unmap last.key s.key_map;
        },
        rw (e, q) refl,
        refl,
        emplace-IsWellFormed key value later (malloc front) _
            (evicted-IsWellFormed s front last w t) (omega (arith, full, Taken-length t)) (f front)
            (index_rest key last front (sym (Taken-index key t w.distinct) ∙ i)),
        rw (length-view s.cache, e) (sym v),
      )
]

put_clean-eq :
    (key value later : ℕ) (malloc : List Node → ℕ) (s : LruCacheWithTtl)
    → IsWellFormed s
    → 0 < s.capacity
    → IsAllocator malloc
    → (t : LruCacheWithTtl) × (put_clean key value later malloc s ≡ some t)
      × IsWellFormed t
      × (view t.cache ≡ stored key value (later + s.ttl) s.capacity (view s.cache))
unfolding put_clean renew emplace
put_clean-eq key value later malloc s w c f = elim (Option-cases (s.key_map key)) [
  | inl e ↦
      let i = sym (w.indexed key) ∙ e in
      let absent = take_key_absent key s.cache i in
      let (t, q, l, g, v) = put_new key value later malloc s w c f i in
      (
        emplace key value later (malloc t.cache) t,
        rw (e, put_clean, q) refl,
        g,
        rw (take_entry-view key s.cache, absent, stored, v, l) refl,
      )
  | inr (a, e) ↦
      let i : index key s.cache ≡ some a = sym (w.indexed key) ∙ e in
      let (n, rest, q, k, t) = take_key-Taken key a s.cache i in
      let at : take_at a s.cache ≡ some (n, rest) = take_at-index key a s.cache w.distinct i ∙ q in
      (
        record {
          ttl = s.ttl;
          capacity = s.capacity;
          cache =
              record {
                address = n.address;
                key = n.key;
                value = value;
                expire_time = later + s.ttl;
              }
              ∷ rest;
          key_map = s.key_map;
        },
        rw (e, put_clean, at, renew) refl,
        moved-IsWellFormed s n rest value (later + s.ttl) w t,
        rw (take_entry-view key s.cache, q, stored, k) refl,
      )
]

clean_expire-capacity :
    (now : ℕ) (s : LruCacheWithTtl) → 0 < s.capacity → 0 < (clean_expire now s).capacity
unfolding clean_expire
clean_expire-capacity now s h = h

-- `put` of `LRUCacheWithTTL` on a well-formed cache that may hold something, with any allocator that
-- gives no address which the list has at that moment, reads no node that is gone; what has expired is
-- gone, the entry with its new value and time is first, the last entry is lost just where the key is
-- new to a full cache, and the cache is again well formed.
pub put_lem :
    (key value now later : ℕ) (malloc : List Node → ℕ) (s : LruCacheWithTtl)
    → IsWellFormed s
    → 0 < s.capacity
    → IsAllocator malloc
    → (t : LruCacheWithTtl) × (put key value now later malloc s ≡ some t)
      × IsWellFormed t
      × (view t.cache ≡ stored key value (later + s.ttl) s.capacity (unexpired now (view s.cache)))
unfolding put
put_lem key value now later malloc s w c f =
    let l = clean_expire-live now s in
    rw (sym (view-live now s.cache), sym l)
      (put_clean-eq key value later malloc (clean_expire now s) (clean_expire-IsWellFormed now s w)
        (clean_expire-capacity now s c) f)
