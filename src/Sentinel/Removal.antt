-- ===== src/Sentinel/Removal.antt =====
-- `remove` of `RBTree` (Red_Black_Tree/RBTree.hpp) agrees with that of `RedBlackTree`.
use learn_spdk.Base.{ℕ, zero, suc, [], ◌∷◌, ◌++◌, ◌≡◌, refl, sym, subst, ◌∙◌, some, arith, length}
use learn_spdk.Base.Key.{KeyOrder}
use learn_spdk.SortedMap.{IsSorted, erase}
use learn_spdk.RedBlack.Tree.{
  Color, red, black, Tree, null, node, left_of, right_of, Way, plug, paint,
}
use learn_spdk.RedBlack.Order.{flat}
use learn_spdk.RedBlack.Colors.{IsGood, IsRedBlack, UnderBlack, UnderBlack-of_black}
use learn_spdk.RedBlack.Insert.{seek}
use learn_spdk.RedBlack.Insert.Repair.{EndsAt, Hits, seek-EndsAt, plug-seek}
use learn_spdk.RedBlack.Insert.Rules.{seek-IsGood}
use learn_spdk.RedBlack.Remove.{
  Turn, leave, again, finish, fault, black_left, black_right, at_left, at_right, turn, fix_delete,
  minimum, after_removal, remove_node,
}
use learn_spdk.RedBlack.Remove.Cases.{IsShort}
use learn_spdk.RedBlack.Remove.Total.{Meets}
use learn_spdk.RedBlack.Remove.Rules.{
  turn-Fine, Spliced, splice_right, splice_left, successor-Spliced, remove_node-IsRedBlack,
}
use learn_spdk.RedBlack.Remove.Repair.{remove_node-flat}
use learn_spdk.RedBlack.Remove.Entries.{erase_at_null, erase_at_node}
use learn_spdk.Sentinel.Remove.{
  delete_black_left, delete_black_right, delete_left, delete_right, delete_turn, delete_fixup,
  minimum_node, close_gap, remove_at, remove,
}
use learn_spdk.Sentinel.Agree.{search_node-eq}

module _ {ℓ} {T : Type ℓ} where
  delete_black_left-eq :
      (x : Tree T T) (pc : Color) (pk pv : T) (wc : Color) (wl : Tree T T) (wk wv : T)
      (wr : Tree T T) (p : Way T T)
      → delete_black_left x pc pk pv (node wc wl wk wv wr) p
        ≡ black_left x pc pk pv (node wc wl wk wv wr) p
  unfolding delete_black_left black_left
  delete_black_left-eq x pc pk pv wc null wk wv null p = refl
  delete_black_left-eq x pc pk pv wc null wk wv (node red a2 j2 w2 b2) p = refl
  delete_black_left-eq x pc pk pv wc null wk wv (node black a2 j2 w2 b2) p = refl
  delete_black_left-eq x pc pk pv wc (node red a1 j1 w1 b1) wk wv null p = refl
  delete_black_left-eq x pc pk pv wc (node red a1 j1 w1 b1) wk wv (node red a2 j2 w2 b2) p = refl
  delete_black_left-eq x pc pk pv wc (node red a1 j1 w1 b1) wk wv (node black a2 j2 w2 b2) p = refl
  delete_black_left-eq x pc pk pv wc (node black a1 j1 w1 b1) wk wv null p = refl
  delete_black_left-eq x pc pk pv wc (node black a1 j1 w1 b1) wk wv (node red a2 j2 w2 b2) p = refl
  delete_black_left-eq x pc pk pv wc (node black a1 j1 w1 b1) wk wv (node black a2 j2 w2 b2) p =
      refl

  delete_black_right-eq :
      (x : Tree T T) (pc : Color) (pk pv : T) (wc : Color) (wl : Tree T T) (wk wv : T)
      (wr : Tree T T) (p : Way T T)
      → delete_black_right x pc pk pv (node wc wl wk wv wr) p
        ≡ black_right x pc pk pv (node wc wl wk wv wr) p
  unfolding delete_black_right black_right
  delete_black_right-eq x pc pk pv wc null wk wv null p = refl
  delete_black_right-eq x pc pk pv wc null wk wv (node red a2 j2 w2 b2) p = refl
  delete_black_right-eq x pc pk pv wc null wk wv (node black a2 j2 w2 b2) p = refl
  delete_black_right-eq x pc pk pv wc (node red a1 j1 w1 b1) wk wv null p = refl
  delete_black_right-eq x pc pk pv wc (node red a1 j1 w1 b1) wk wv (node red a2 j2 w2 b2) p = refl
  delete_black_right-eq x pc pk pv wc (node red a1 j1 w1 b1) wk wv (node black a2 j2 w2 b2) p = refl
  delete_black_right-eq x pc pk pv wc (node black a1 j1 w1 b1) wk wv null p = refl
  delete_black_right-eq x pc pk pv wc (node black a1 j1 w1 b1) wk wv (node red a2 j2 w2 b2) p = refl
  delete_black_right-eq x pc pk pv wc (node black a1 j1 w1 b1) wk wv (node black a2 j2 w2 b2) p =
      refl

  delete_left-eq :
      (x : Tree T T) (pc : Color) (pk pv : T) (w : Tree T T) (p : Way T T)
      → IsShort x (left_of pc pk pv w ∷ p)
      → delete_left x pc pk pv w p ≡ at_left x pc pk pv w p
  unfolding delete_left at_left
  delete_left-eq x pc pk pv null p g = absurd (omega (arith, g.fits.0))
  delete_left-eq x pc pk pv (node black a k v b) p g =
      delete_black_left-eq x pc pk pv black a k v b p
  delete_left-eq x pc pk pv (node red null k v b) p g = absurd (omega (arith, g.fits.0, g.fits.1.0))
  delete_left-eq x pc pk pv (node red (node d aa kk vv bb) k v b) p g =
      delete_black_left-eq x red pk pv d aa kk vv bb (left_of black k v b ∷ p)

  delete_right-eq :
      (x : Tree T T) (pc : Color) (pk pv : T) (w : Tree T T) (p : Way T T)
      → IsShort x (right_of pc w pk pv ∷ p)
      → delete_right x pc pk pv w p ≡ at_right x pc pk pv w p
  unfolding delete_right at_right
  delete_right-eq x pc pk pv null p g = absurd (omega (arith, g.fits.0))
  delete_right-eq x pc pk pv (node black a k v b) p g =
      delete_black_right-eq x pc pk pv black a k v b p
  delete_right-eq x pc pk pv (node red a k v null) p g =
      absurd (omega (arith, g.fits.0, g.fits.1.0))
  delete_right-eq x pc pk pv (node red a k v (node d aa kk vv bb)) p g =
      delete_black_right-eq x red pk pv d aa kk vv bb (right_of black a k v ∷ p)

  -- Where a black node is missing there is a sibling, so that no round is a fault.
  delete_turn-eq : (x : Tree T T) (p : Way T T) → IsShort x p → delete_turn x p ≡ turn x p
  unfolding delete_turn turn
  delete_turn-eq x [] g = refl
  delete_turn-eq (node red l k v r) (c ∷ p) g = refl
  delete_turn-eq null (left_of pc pk pv w ∷ p) g = delete_left-eq null pc pk pv w p g
  delete_turn-eq null (right_of pc w pk pv ∷ p) g = delete_right-eq null pc pk pv w p g
  delete_turn-eq (node black l k v r) (left_of pc pk pv w ∷ p) g =
      delete_left-eq (node black l k v r) pc pk pv w p g
  delete_turn-eq (node black l k v r) (right_of pc w pk pv ∷ p) g =
      delete_right-eq (node black l k v r) pc pk pv w p g

  delete_fixup-eq :
      (fuel : ℕ) (x : Tree T T) (p : Way T T)
      → IsShort x p
      → delete_fixup fuel x p ≡ fix_delete fuel x p
  unfolding delete_fixup fix_delete
  delete_fixup-eq zero x p g = refl
  delete_fixup-eq (suc fuel) x p g =
      go (turn x p) refl (turn-Fine x p g) (λ x' p' g'. delete_fixup-eq fuel x' p' g')
    where
      go :
          (m : Turn T T)
          → turn x p ≡ m
          → Meets IsShort IsRedBlack m
          → ((x' : Tree T T) (p' : Way T T)
              → IsShort x' p'
              → delete_fixup fuel x' p' ≡ fix_delete fuel x' p')
          → delete_fixup (suc fuel) x p ≡ fix_delete (suc fuel) x p
      go (leave x' p') e y ih = rw (delete_turn-eq x p g, delete_fixup, e, fix_delete) refl
      go (again x' p') e y ih = rw (delete_turn-eq x p g, delete_fixup, e, fix_delete) (ih x' p' y)
      go (finish w) e y ih = rw (delete_turn-eq x p g, delete_fixup, e, fix_delete) refl
      go fault e y ih = rw (delete_turn-eq x p g, delete_fixup, e, fix_delete) refl

  delete_fixup-root : (x : Tree T T) → delete_fixup 1 x [] ≡ some (paint black x)
  unfolding delete_fixup delete_turn
  delete_fixup-root x = refl

  close_gap-eq :
      (c : Color) (x : Tree T T) (p : Way T T)
      → Spliced c x p
      → close_gap c x p ≡ after_removal c x p
  unfolding close_gap after_removal
  close_gap-eq red x p g = refl
  close_gap-eq black x [] g = delete_fixup-root x
  close_gap-eq black x (c ∷ p) g = delete_fixup-eq (suc (length (c ∷ p))) x (c ∷ p) g

  minimum_node-eq :
      (c : Color) (l : Tree T T) (k v : T) (r : Tree T T) (p : Way T T)
      → minimum_node c l k v r p ≡ minimum c l k v r p
  unfolding minimum_node minimum
  minimum_node-eq c null k v r p = refl
  minimum_node-eq c (node lc ll lk lv lr) k v r p =
      minimum_node-eq lc ll lk lv lr (left_of c k v r ∷ p)

  remove_at-eq :
      (root : Tree T T) (c : Color) (l : Tree T T) (k v : T) (r : Tree T T) (p : Way T T)
      → IsGood (node c l k v r) p
      → UnderBlack (node c l k v r) p
      → remove_at root (node c l k v r, p) ≡ remove_node (node c l k v r) p
  unfolding remove_at remove_node
  remove_at-eq root c null k v r p g h = close_gap-eq c r p (splice_right c k v r p g)
  remove_at-eq root c (node lc ll lk lv lr) k v null p g h =
      close_gap-eq c (node lc ll lk lv lr) p (splice_left c (node lc ll lk lv lr) k v p g)
  remove_at-eq root c (node lc ll lk lv lr) k v (node rc rl rk rv rr) p g h =
      let m = minimum rc rl rk rv rr [] in
      rw (minimum_node-eq rc rl rk rv rr []) (
        close_gap-eq m.0.0 m.0.3 (m.1 ++ (right_of c (node lc ll lk lv lr) m.0.1 m.0.2 ∷ p))
          (successor-Spliced c (node lc ll lk lv lr) k v rc rl rk rv rr p g h))

module _ {ℓ} {T : Type ℓ} ⦃o : KeyOrder T⦄ where
  remove_at-lem :
      (key : T) (root t : Tree T T) (p : Way T T)
      → EndsAt key t p
      → Hits key t
      → IsGood t p
      → UnderBlack t p
      → plug t p ≡ root
      → IsRedBlack root
      → (w : Tree T T) × (remove_at root (t, p) ≡ some w)
        × (flat w ≡ erase key (flat root))
        × IsRedBlack w
  unfolding remove_at
  remove_at-lem key root null p e h g n q b =
      let gone : erase key (flat root) ≡ flat root =
        subst (λ x. erase key (flat x) ≡ flat x) q (erase_at_null key p e).0 in
      (root, refl, sym gone, b)
  remove_at-lem key root (node c l k v r) p e h g n q b =
      let (w, done, left) = remove_node-flat c l k v r p in
      let (w', done', rules) = remove_node-IsRedBlack c l k v r p g n in
      let same : w' ≡ w = cc (done, done') in
      (
        w,
        remove_at-eq root c l k v r p g n ∙ done,
        subst (λ x. flat w ≡ erase key (flat x)) q
            (left ∙ sym (erase_at_node key c l k v r p e h).0),
        subst (λ x. IsRedBlack x) same rules,
      )

  -- For a red-black tree whose keys are in order, `remove` of `RBTree` dereferences no null pointer,
  -- also below `nil`, and its loop ends; the entries of the new tree are those of the old one without
  -- the entry of the key, if there is one, and the tree is again red-black.
  pub remove_lem :
      (key : T) (root : Tree T T)
      → IsSorted (flat root)
      → IsRedBlack root
      → (w : Tree T T) × (remove key root ≡ some w)
        × (flat w ≡ erase key (flat root))
        × IsRedBlack w
  unfolding remove
  remove_lem key root h b =
      let (e, hit) = seek-EndsAt key root [] (record { low = tt; high = tt; ordered = h }) in
      let (g, n) =
        seek-IsGood key root []
          (record { balanced = b.balanced; apart = b.apart; fits = tt; reds = tt })
          (UnderBlack-of_black root [] b.root_black) in
      rw (search_node-eq key root []) (
        remove_at-lem key root (seek key root []).0 (seek key root []).1 e hit g n
          (plug-seek key root []) b)
