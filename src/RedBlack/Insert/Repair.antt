-- ===== src/RedBlack/Insert/Repair.antt =====
-- What `fix_insert` does to the entries, and where the walk of `insert` ends (B+Tree/temp.cpp).
use learn_spdk.Base.{
  ℕ, zero, suc, List, [], ◌∷◌, ◌++◌, ◌≡◌, refl, subst, ◌∙◌, some, arith, append_assoc, All-append,
  length,
}
use learn_spdk.Base.Key.{KeyOrder, ◌≺◌, compared, is_lt, is_eq, is_gt}
use learn_spdk.SortedMap.{
  AllBelow, AllAbove, IsSorted, IsSorted-middle, AllBelow-trans, AllAbove-trans,
}
use learn_spdk.RedBlack.Insert.Total.{Climbs, turn-Climbs}
use learn_spdk.RedBlack.Tree.{
  Color, red, black, Tree, null, node, left_of, right_of, Way, paint, plug,
}
use learn_spdk.RedBlack.Order.{flat, before, after, flat-plug_cong, flat-paint}
use learn_spdk.RedBlack.Insert.{Turn, leave, again, fault, turn, fix_insert, seek}

module _ {ℓ κ} {K : Type ℓ} {V : Type κ} where
  -- What a round leaves holds these entries.
  abbrev Keeps : List (K × V) → Turn K V → Type (ℓ ⊔ κ)
  Keeps xs (leave whole) = flat whole ≡ xs
  Keeps xs (again t p) = flat (plug t p) ≡ xs
  Keeps xs fault = flat {K = K} {V = V} null ≡ []

  turn-Keeps :
      (nc : Color) (l : Tree K V) (k : K) (v : V) (r : Tree K V) (p : Way K V)
      → Keeps (flat (plug (node nc l k v r) p)) (turn (node nc l k v r) p)
  unfolding turn
  turn-Keeps nc l k v r [] = refl
  turn-Keeps nc l k v r (left_of black pk pv s ∷ p) = refl
  turn-Keeps nc l k v r (right_of black s pk pv ∷ p) = refl
  turn-Keeps nc l k v r (left_of red pk pv s ∷ []) = refl
  turn-Keeps nc l k v r (right_of red s pk pv ∷ []) = refl
  turn-Keeps nc l k v r (left_of red pk pv s ∷ left_of gc gk gv null ∷ p) =
      flat-plug_cong _ _ p (simp append_assoc)
  turn-Keeps nc l k v r (left_of red pk pv s ∷ left_of gc gk gv (node red a j w b) ∷ p) =
      flat-plug_cong _ _ p (simp append_assoc)
  turn-Keeps nc l k v r (left_of red pk pv s ∷ left_of gc gk gv (node black a j w b) ∷ p) =
      flat-plug_cong _ _ p (simp append_assoc)
  turn-Keeps nc l k v r (left_of red pk pv s ∷ right_of gc null gk gv ∷ p) =
      flat-plug_cong _ _ p (simp append_assoc)
  turn-Keeps nc l k v r (left_of red pk pv s ∷ right_of gc (node red a j w b) gk gv ∷ p) =
      flat-plug_cong _ _ p (simp append_assoc)
  turn-Keeps nc l k v r (left_of red pk pv s ∷ right_of gc (node black a j w b) gk gv ∷ p) =
      flat-plug_cong _ _ p (simp append_assoc)
  turn-Keeps nc l k v r (right_of red s pk pv ∷ left_of gc gk gv null ∷ p) =
      flat-plug_cong _ _ p (simp append_assoc)
  turn-Keeps nc l k v r (right_of red s pk pv ∷ left_of gc gk gv (node red a j w b) ∷ p) =
      flat-plug_cong _ _ p (simp append_assoc)
  turn-Keeps nc l k v r (right_of red s pk pv ∷ left_of gc gk gv (node black a j w b) ∷ p) =
      flat-plug_cong _ _ p (simp append_assoc)
  turn-Keeps nc l k v r (right_of red s pk pv ∷ right_of gc null gk gv ∷ p) =
      flat-plug_cong _ _ p (simp append_assoc)
  turn-Keeps nc l k v r (right_of red s pk pv ∷ right_of gc (node red a j w b) gk gv ∷ p) =
      flat-plug_cong _ _ p (simp append_assoc)
  turn-Keeps nc l k v r (right_of red s pk pv ∷ right_of gc (node black a j w b) gk gv ∷ p) =
      flat-plug_cong _ _ p (simp append_assoc)

  -- The repair changes no entry and no place of one.
  pub fix_insert-flat :
      (fuel : ℕ) (nc : Color) (l : Tree K V) (k : K) (v : V) (r : Tree K V) (p : Way K V)
      {t : Tree K V}
      → fix_insert fuel (node nc l k v r) p ≡ some t
      → flat t ≡ flat (plug (node nc l k v r) p)
  unfolding fix_insert
  fix_insert-flat zero nc l k v r p h = cc
  fix_insert-flat (suc fuel) nc l k v r p {t} h =
      go (turn (node nc l k v r) p) refl (turn-Keeps nc l k v r p) (turn-Climbs nc l k v r p)
        (λ nc' l' k' v' r' p' h'. fix_insert-flat fuel nc' l' k' v' r' p' h')
    where
      whole_entries : List (K × V)
      whole_entries = flat (plug (node nc l k v r) p)

      go :
          (m : Turn K V)
          → turn (node nc l k v r) p ≡ m
          → Keeps whole_entries m
          → Climbs (length p) m
          → ((nc' : Color) (l' : Tree K V) (k' : K) (v' : V) (r' : Tree K V) (p' : Way K V)
              → fix_insert fuel (node nc' l' k' v' r') p' ≡ some t
              → flat t ≡ flat (plug (node nc' l' k' v' r') p'))
          → flat t ≡ whole_entries
      go (leave whole) e q c ih =
          let found : some (paint black whole) ≡ some t = rw (e, fix_insert) at h in
          let same : paint black whole ≡ t = cc in
          subst (λ x. flat x ≡ whole_entries) same (flat-paint black whole ∙ q)
      go (again null p') e q c ih = absurd c
      go (again (node nc' l' k' v' r') p') e q c ih =
          ih nc' l' k' v' r' p' (rw (e, fix_insert) at h) ∙ q
      go fault e q c ih = absurd c

module _ {ℓ κ} {K : Type ℓ} {V : Type κ} ⦃o : KeyOrder K⦄ where
  -- The walk changes nothing.
  pub plug-seek :
      (key : K) (t : Tree K V) (p : Way K V) → plug (seek key t p).0 (seek key t p).1 ≡ plug t p
  unfolding seek
  plug-seek key null p = refl
  plug-seek key (node c l k v r) p =
      ground (arith, plug-seek key l (left_of c k v r ∷ p), plug-seek key r (right_of c l k v ∷ p))

  -- Where the walk ends: a node with the key, or the place of the key among the entries.
  pub record EndsAt (key : K) (t : Tree K V) (p : Way K V) : Type (ℓ ⊔ κ) where
    pub low : AllBelow key (before p)
    pub high : AllAbove key (after p)
    pub ordered : IsSorted (flat t)

  abbrev pub Hits : K → Tree K V → Type ℓ
  Hits key null = key ≡ key
  Hits key (node c l k v r) = key ≡ k

  pub seek-EndsAt :
      (key : K) (t : Tree K V) (p : Way K V)
      → EndsAt key t p
      → EndsAt key (seek key t p).0 (seek key t p).1 × Hits key (seek key t p).0
  unfolding seek
  seek-EndsAt key null p e = (e, refl)
  seek-EndsAt key (node c l k v r) p e =
      let (sl, bl, ar, sr) = IsSorted-middle (flat l) k v (flat r) e.ordered in
      elim (compared (o.cmp key k)) [
        | is_lt h ↦
            rw (h, seek)
              (seek-EndsAt key l (left_of c k v r ∷ p) (record {
                low = e.low;
                high = (
                  h,
                  All-append (λ x. key ≺ x.0) (flat r) (after p)
                      (AllAbove-trans key k (flat r) h ar) e.high,
                );
                ordered = sl;
              }))
        | is_eq h ↦ rw (h, seek) (e, o.eq_of_cmp key k h)
        | is_gt h ↦
            rw (h, seek)
              (seek-EndsAt key r (right_of c l k v ∷ p) (record {
                low =
                    let below : k ≺ key = o.lt_of_gt key k h in
                    All-append (λ x. x.0 ≺ key) (before p) (flat l ++ ((k, v) ∷ [])) e.low
                      (All-append (λ x. x.0 ≺ key) (flat l) ((k, v) ∷ [])
                        (AllBelow-trans k key (flat l) below bl) (below, tt));
                high = e.high;
                ordered = sr;
              }))
      ]
