-- ===== src/LruCache/Forms.antt =====
-- The state of `LRUCacheWithTTL` that its operations rely on and keep: what the cleaning, the taking
-- of a node and the loss of the last node do to it.
use learn_spdk.Base.{
  ℕ, ◌+◌, ◌≡◌, ◌≢◌, refl, ◌∙◌, List, [], ◌∷◌, none, arith, All, All-imp, length, ◌≤◌, ◌<◌,
}
use learn_spdk.LruCache.{Node, KeyMap, LruCacheWithTtl, unmap, clean_loop, clean_expire, emplace}
use learn_spdk.LruCache.Nodes.{
  Taken, Taken-length, Taken-Distinct, Taken-index, Apart, Distinct, index, live, index_absent,
}

-- Each key and address stands once, the map holds just the nodes of the list, and the list is not
-- longer than the capacity.
pub record IsWellFormed (s : LruCacheWithTtl) : Type 0 where
  pub distinct : Distinct s.cache
  pub indexed : (key : ℕ) → s.key_map key ≡ index key s.cache
  pub bounded : length s.cache ≤ s.capacity

clean_loop-live : (now : ℕ) (ns : List Node) (m : KeyMap) → (clean_loop now ns m).0 ≡ live now ns
unfolding clean_loop live
clean_loop-live now [] m = refl
clean_loop-live now (n ∷ ns) m =
    ground (arith, clean_loop-live now ns m, clean_loop-live now ns (unmap n.key m))

index-Apart : (n : Node) (ns : List Node) → All (Apart n) ns → index n.key ns ≡ none
index-Apart n ns h = index_absent n.key ns (All-imp (λ m a. a.1) ns h)

index-live_absent :
    (now key : ℕ) (ns : List Node) → index key ns ≡ none → index key (live now ns) ≡ none
unfolding index live
index-live_absent now key [] h = refl
index-live_absent now key (n ∷ ns) h = ground (arith, index-live_absent now key ns)

clean_loop_absent :
    (now key : ℕ) (ns : List Node) (m : KeyMap)
    → index key ns ≡ none
    → (clean_loop now ns m).1 key ≡ m key
unfolding index clean_loop
clean_loop_absent now key [] m h = refl
clean_loop_absent now key (n ∷ ns) m h =
    ground (arith, clean_loop_absent now key ns m, clean_loop_absent now key ns (unmap n.key m))

clean_loop-index :
    (now key : ℕ) (ns : List Node) (m : KeyMap)
    → Distinct ns
    → m key ≡ index key ns
    → (clean_loop now ns m).1 key ≡ index key (live now ns)
unfolding index clean_loop live
clean_loop-index now key [] m d h = h
clean_loop-index now key (n ∷ ns) m d h = ground (
  arith,
  index-Apart n ns d.0,
  index-live_absent now key ns,
  clean_loop_absent now key ns m,
  clean_loop_absent now key ns (unmap n.key m),
  clean_loop-index now key ns m d.1,
  clean_loop-index now key ns (unmap n.key m) d.1,
)

pub All-live : (P : Node → Type 0) (now : ℕ) (ns : List Node) → All P ns → All P (live now ns)
unfolding live
All-live P now [] h = tt
All-live P now (n ∷ ns) h = ground (arith, All-live P now ns h.1)

Distinct-live : (now : ℕ) (ns : List Node) → Distinct ns → Distinct (live now ns)
unfolding live
Distinct-live now [] h = tt
Distinct-live now (n ∷ ns) h =
    ground (arith, All-live (Apart n) now ns h.0, Distinct-live now ns h.1)

length-live : (now : ℕ) (ns : List Node) → length (live now ns) ≤ length ns
unfolding live
length-live now [] = omega arith
length-live now (n ∷ ns) = ground (arith, length-live now ns)

pub clean_expire-IsWellFormed :
    (now : ℕ) (s : LruCacheWithTtl) → IsWellFormed s → IsWellFormed (clean_expire now s)
unfolding clean_expire
clean_expire-IsWellFormed now s w =
    let at = clean_loop-live now s.cache s.key_map in
    record {
      distinct = rw at (Distinct-live now s.cache w.distinct);
      indexed =
          λ key. rw at (clean_loop-index now key s.cache s.key_map w.distinct (w.indexed key));
      bounded = rw at (omega (arith, length-live now s.cache, w.bounded));
    }

pub clean_expire-live :
    (now : ℕ) (s : LruCacheWithTtl) → (clean_expire now s).cache ≡ live now s.cache
unfolding clean_expire
clean_expire-live now s = clean_loop-live now s.cache s.key_map

-- A node taken out and put first, with whatever value and time.
pub moved-IsWellFormed :
    (s : LruCacheWithTtl) (n : Node) (rest : List Node) (value time : ℕ)
    → IsWellFormed s
    → Taken n s.cache rest
    → IsWellFormed (record {
      ttl = s.ttl;
      capacity = s.capacity;
      cache = record { address = n.address; key = n.key; value = value; expire_time = time } ∷ rest;
      key_map = s.key_map;
    })
unfolding index
moved-IsWellFormed s n rest value time w t = record {
  distinct = Taken-Distinct t w.distinct;
  indexed = λ key. w.indexed key ∙ Taken-index key t w.distinct;
  bounded = omega (arith, Taken-length t, w.bounded);
}

Apart-of_fresh :
    (key value time address : ℕ) (ns : List Node)
    → All (λ n. n.address ≢ address) ns
    → index key ns ≡ none
    → All (Apart (record { address = address; key = key; value = value; expire_time = time })) ns
unfolding index
Apart-of_fresh key value time address [] f h = tt
Apart-of_fresh key value time address (n ∷ ns) f h =
    ground (arith, Apart-of_fresh key value time address ns f.1)

-- A node at an address that is in use nowhere is put first in a cache with room.
pub emplace-IsWellFormed :
    (key value later address : ℕ) (s : LruCacheWithTtl)
    → IsWellFormed s
    → length s.cache < s.capacity
    → All (λ n. n.address ≢ address) s.cache
    → index key s.cache ≡ none
    → IsWellFormed (emplace key value later address s)
unfolding index emplace
emplace-IsWellFormed key value later address s w b f h = record {
  distinct = (Apart-of_fresh key value (later + s.ttl) address s.cache f h, w.distinct);
  indexed = λ k. ground (arith, w.indexed k);
  bounded = omega (arith, b);
}

-- The last node is lost.
pub evicted-IsWellFormed :
    (s : LruCacheWithTtl) (front : List Node) (last : Node)
    → IsWellFormed s
    → Taken last s.cache front
    → IsWellFormed (record {
      ttl = s.ttl;
      capacity = s.capacity;
      cache = front;
      key_map = unmap last.key s.key_map;
    })
unfolding index
evicted-IsWellFormed s front last w t =
    let d = Taken-Distinct t w.distinct in
    record {
      distinct = d.1;
      indexed =
          λ k. ground (arith, w.indexed k, Taken-index k t w.distinct, index-Apart last front d.0);
      bounded = omega (arith, Taken-length t, w.bounded);
    }
