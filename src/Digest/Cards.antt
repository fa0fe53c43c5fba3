-- ===== src/Digest/Cards.antt =====
-- What folding same-story items into cards keeps: `_synthesize_topic_clusters` of
-- backend/app/services/digest/builder.py over `cluster_stories`.
use readprism.Prelude.{
  ℕ, ◌+◌, ◌≡◌, refl, Bool, true, Option, List, [], ◌∷◌, ◌++◌, map, arith, inl, inr, All, ap,
  Bool-cases,
}
use readprism.Prelude.Text.{Text}
use readprism.Digest.Stories.{
  Item, Story, Card, joins, place, cluster_from, cluster_stories, first_dim, others, has_others,
  card_of, alone, synthesize_topic_clusters,
}

module _ (V : Type 0) (dim : V → ℕ) (close : V → V → Bool) where
  module _ (f : Item V dim close → ℕ) where
    -- The weight of the items of a list, of stories and of cards.
    unfoldable pub weigh : List (Item V dim close) → ℕ
    weigh [] = 0
    weigh (i ∷ items) = f i + weigh items

    weigh_stories : List (Story V dim close) → ℕ
    unfolding weigh
    weigh_stories [] = 0
    weigh_stories (s ∷ stories) = weigh s.items + weigh_stories stories

    pub weigh_cards : List (Card V dim close) → ℕ
    unfolding weigh
    weigh_cards [] = 0
    weigh_cards (c ∷ cards) = f c.primary + weigh c.perspectives + weigh_cards cards

    weigh-append :
        (items : List (Item V dim close)) (i : Item V dim close)
        → weigh (items ++ (i ∷ [])) ≡ weigh items + f i
    unfolding weigh
    weigh-append [] i = omega arith
    weigh-append (j ∷ items) i = omega (arith, weigh-append items i)

    weigh_stories-place :
        (d : ℕ) (i : Item V dim close) (stories : List (Story V dim close))
        → weigh_stories (place V dim close d i stories) ≡ f i + weigh_stories stories
    unfolding weigh weigh_stories place
    weigh_stories-place d i [] = omega arith
    weigh_stories-place d i (s ∷ stories) =
        let later = weigh_stories-place d i stories in
        elim (Bool-cases (joins V dim close d s.seed i)) [
          | inl t ↦ rw t (omega (arith, weigh-append s.items i))
          | inr n ↦ rw n (omega (arith, later))
        ]

    weigh_stories-cluster_from :
        (d : ℕ) (stories : List (Story V dim close)) (items : List (Item V dim close))
        → weigh_stories (cluster_from V dim close d stories items)
          ≡ weigh items + weigh_stories stories
    unfolding weigh cluster_from
    weigh_stories-cluster_from d stories [] = omega arith
    weigh_stories-cluster_from d stories (i ∷ items) = omega (
      arith,
      weigh_stories-cluster_from d (place V dim close d i stories) items,
      weigh_stories-place d i stories,
    )

  -- The items of a story are its seed and items that are similar to it.
  abbrev Similar : ℕ → Item V dim close → Item V dim close → Type 0
  Similar d seed i = joins V dim close d seed i ≡ true

  abbrev IsStory : ℕ → Story V dim close → Type 0
  IsStory d s =
      (s.items ≡ s.seed ∷ others V dim close s.items)
      × All (Similar d s.seed) (others V dim close s.items)

  All-append :
      (P : Item V dim close → Type 0) (items : List (Item V dim close)) (i : Item V dim close)
      → All P items
      → P i
      → All P (items ++ (i ∷ []))
  All-append P [] i a p = (p, tt)
  All-append P (j ∷ items) i (q, a) p = (q, All-append P items i a p)

  joined-IsStory :
      (d : ℕ) (seed i : Item V dim close) (items : List (Item V dim close))
      → items ≡ seed ∷ others V dim close items
      → All (Similar d seed) (others V dim close items)
      → Similar d seed i
      → (items ++ (i ∷ []) ≡ seed ∷ others V dim close (items ++ (i ∷ [])))
        × All (Similar d seed) (others V dim close (items ++ (i ∷ [])))
  joined-IsStory d seed i [] e a h = cc
  joined-IsStory d seed i (j ∷ items) e a h =
      let same : j ≡ seed = cc in
      (ap (λ x. x ∷ (items ++ (i ∷ []))) same, All-append (Similar d seed) items i a h)

  place-IsStory :
      (d : ℕ) (i : Item V dim close) (stories : List (Story V dim close))
      → All (IsStory d) stories
      → All (IsStory d) (place V dim close d i stories)
  unfolding place
  place-IsStory d i [] a = ((refl, tt), tt)
  place-IsStory d i (s ∷ stories) ((e, similar), a) =
      elim (Bool-cases (joins V dim close d s.seed i)) [
        | inl t ↦ rw t (joined-IsStory d s.seed i s.items e similar t, a)
        | inr n ↦ rw n ((e, similar), place-IsStory d i stories a)
      ]

  cluster_from-IsStory :
      (d : ℕ) (stories : List (Story V dim close)) (items : List (Item V dim close))
      → All (IsStory d) stories
      → All (IsStory d) (cluster_from V dim close d stories items)
  unfolding cluster_from
  cluster_from-IsStory d stories [] a = a
  cluster_from-IsStory d stories (i ∷ items) a =
      cluster_from-IsStory d (place V dim close d i stories) items (place-IsStory d i stories a)

  -- The perspectives of a card are similar to its primary item.
  abbrev pub IsCard : ℕ → Card V dim close → Type 0
  IsCard d c = All (Similar d c.primary) c.perspectives

  module _ (briefing : Bool) (brief : List (Item V dim close) → Option Text) where
    weigh_cards-map :
        (f : Item V dim close → ℕ) (d : ℕ) (stories : List (Story V dim close))
        → All (IsStory d) stories
        → weigh_cards f (map (card_of V dim close briefing brief) stories) ≡ weigh_stories f stories
    unfolding card_of weigh weigh_cards weigh_stories
    weigh_cards-map f d [] a = refl
    weigh_cards-map f d (s ∷ stories) ((e, similar), a) =
        omega (arith, weigh_cards-map f d stories a, ap (weigh f) e)

    map-IsCard :
        (d : ℕ) (stories : List (Story V dim close))
        → All (IsStory d) stories
        → All (IsCard d) (map (card_of V dim close briefing brief) stories)
    unfolding card_of
    map-IsCard d [] a = tt
    map-IsCard d (s ∷ stories) ((e, similar), a) = (similar, map-IsCard d stories a)

    weigh_cards-alone :
        (f : Item V dim close → ℕ) (items : List (Item V dim close))
        → weigh_cards f (map (alone V dim close) items) ≡ weigh f items
    unfolding weigh weigh_cards
    weigh_cards-alone f [] = refl
    weigh_cards-alone f (i ∷ items) = omega (arith, weigh_cards-alone f items)

    alone-IsCard :
        (d : ℕ) (items : List (Item V dim close)) → All (IsCard d) (map (alone V dim close) items)
    alone-IsCard d [] = tt
    alone-IsCard d (i ∷ items) = (tt, alone-IsCard d items)

    -- Folding stories loses and doubles no item: in whatever way items are counted, the cards have, as
    -- primary items and perspectives, as many as there were; and each perspective is similar to its
    -- card's primary item.
    pub synthesize_topic_clusters_keeps :
        (f : Item V dim close → ℕ) (items : List (Item V dim close))
        → (weigh_cards f (synthesize_topic_clusters V dim close briefing brief items)
            ≡ weigh f items)
          × All
              (IsCard (first_dim V dim close items))
              (synthesize_topic_clusters V dim close briefing brief items)
    unfolding synthesize_topic_clusters cluster_stories weigh_stories
    synthesize_topic_clusters_keeps f items =
        let d = first_dim V dim close items in
        let stories = cluster_from V dim close d [] items in
        let a = cluster_from-IsStory d [] items tt in
        elim (Bool-cases (has_others V dim close items)) [
          | inl t ↦ rw t (
            omega (arith, weigh_cards-map f d stories a, weigh_stories-cluster_from f d [] items),
            map-IsCard d stories a,
          )
          | inr n ↦ rw n (weigh_cards-alone f items, alone-IsCard d items)
        ]
