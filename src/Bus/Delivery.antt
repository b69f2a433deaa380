-- ===== src/Bus/Delivery.antt =====
-- What the handler of a subscription gets.
use mathlib.Core.Path.{ap}
use broker_bridge.Base.{
  String, ◌≡◌, refl, sym, ◌∙◌, false, some, List, [], ◌∷◌, ◌++◌, append-nil, append_assoc,
  where_rows, where_rows-append,
}
use broker_bridge.Bus.{Filter, wants, filter_of, Bus, wanted_by, publish, subscribe, publish_all}

module _ {E : Type 0} where
  -- The bus is open, and its handler got what it wants of all events.
  abbrev pub IsServed : Filter → Bus E → Type 0
  IsServed f b =
      (b.is_closed ≡ false) × (b.handler ≡ some f) × (b.handled ≡ wanted_by (some f) b.published)

  publish-IsServed :
      (f : Filter) (t : String) (e : E) (b : Bus E)
      → IsServed f b
      → IsServed f (publish t e b).1 × ((publish t e b).1.published ≡ b.published ++ (t, e) ∷ [])
  unfolding publish
  publish-IsServed f t e b (up, on, got) =
      let p = λ (x : String × E). wants f x.0 in
      let more = (t, e) ∷ [] in
      let got' : b.handled ++ wanted_by b.handler more ≡ where_rows p (b.published ++ more) =
        ap (λ h. b.handled ++ wanted_by h more) on
        ∙ (ap (λ l. l ++ where_rows p more) got ∙ sym (where_rows-append p b.published more)) in
      rw up ((refl, on, got'), refl)

  publish_all-IsServed :
      (f : Filter) (l : List (String × E)) (b : Bus E)
      → IsServed f b
      → IsServed f (publish_all l b) × ((publish_all l b).published ≡ b.published ++ l)
  publish_all-IsServed f [] b h = (h, sym (append-nil b.published))
  publish_all-IsServed f ((t, e) ∷ l) b h =
      let (h', e') = publish-IsServed f t e b h in
      let (k, k') = publish_all-IsServed f l (publish t e b).1 h' in
      (k, k' ∙ rw e' (append_assoc b.published ((t, e) ∷ []) l))

  -- After a subscription to an open provider, and any publications that follow it, the handler was called
  -- with every event of its topics that was published before or since, once each and in their order.
  pub subscribe_lem :
      (topics : List String) (l : List (String × E)) (b : Bus E)
      → b.is_closed ≡ false
      → (publish_all l (subscribe topics b).1).handled
        ≡ where_rows (λ (e : String × E). wants (filter_of topics) e.0) (b.published ++ l)
  unfolding subscribe
  subscribe_lem topics l b up =
      let f = filter_of topics in
      let (served, all) =
        publish_all-IsServed f l (subscribe topics b).1 (rw up (refl, refl, refl)) in
      let same : (subscribe topics b).1.published ≡ b.published = rw up refl in
      served.2 ∙ ap (wanted_by (some f)) (all ∙ ap (λ q. q ++ l) same)
