-- ===== src/Context/Negotiation.antt =====
-- context.go: the viewer that `View` chooses, against a description of the choice.
use xun.Base.{
  true, false, Option, none, some, List, [], ◌∷◌, ◌++◌, ◌≡◌, refl, ap, ◌∙◌, Bytes, Dict, lookup,
  All, arith, Bool-cases, Option-cases, inl, inr,
}
use xun.Mime.{MimeType, matches}
use xun.Context.View.{
  name_of, any_accepted, get_viewer, first_viewer, negotiate, fallback, view_from, view,
}

-- The viewer of a name: the empty name has none.
abbrev pub named_viewer {ℓ} : {V : Type ℓ} → Dict V → Bytes → Option V
named_viewer viewers [] = none
named_viewer viewers (c ∷ name) = lookup (c ∷ name) viewers

module _ {V : Type 0} (mime_of : V → MimeType) where
  -- None of the viewers produces the type, or none produces any of the types.
  abbrev pub NoneOffers : MimeType → List V → Type 0
  NoneOffers a = All (λ v. matches (mime_of v) a ≡ false)

  abbrev pub NoneMatches : List MimeType → List V → Type 0
  NoneMatches accepts vs = All (λ a. NoneOffers a vs) accepts

  -- The viewer produces one of the types, or none of them.
  abbrev pub Suits : V → List MimeType → Type 0
  Suits v accepts =
      (pre : List MimeType) × (a : MimeType) × (post : List MimeType) × (accepts ≡ pre ++ a ∷ post)
      × (matches (mime_of v) a ≡ true)

  abbrev pub SuitsNone : Option V → List MimeType → Type 0
  SuitsNone none accepts = Unit {0}
  SuitsNone (some v) accepts = All (λ a. matches (mime_of v) a ≡ false) accepts

  -- The first viewer of the route for the first accepted type that has one.
  pub record IsBest (accepts : List MimeType) (vs : List V) (v : V) : Type 0 where
    pub preferred : List MimeType
    pub type : MimeType
    pub later : List MimeType
    pub before : List V
    pub behind : List V
    pub accepts_split : accepts ≡ preferred ++ type ∷ later
    pub preferred_missed : NoneMatches preferred vs
    pub viewers_split : vs ≡ before ++ v ∷ behind
    pub before_missed : NoneOffers type before
    pub offered : matches (mime_of v) type ≡ true

  pub data IsChosen (named : Option V) (accepts : List MimeType) (vs : List V)
      : Option V → Type 0 where
    by_name : (v : V) → named ≡ some v → Suits v accepts → IsChosen named accepts vs (some v)
    by_type :
        (v : V) → SuitsNone named accepts → IsBest accepts vs v → IsChosen named accepts vs (some v)
    by_name_only :
        (v : V)
        → named ≡ some v
        → SuitsNone named accepts
        → NoneMatches accepts vs
        → IsChosen named accepts vs (some v)
    by_order :
        (v : V) (rest : List V)
        → named ≡ none
        → NoneMatches accepts vs
        → vs ≡ v ∷ rest
        → IsChosen named accepts vs (some v)
    not_found : named ≡ none → vs ≡ [] → IsChosen named accepts vs none

  any_accepted-true :
      (v : V) (accepts : List MimeType) → any_accepted mime_of v accepts ≡ true → Suits v accepts
  unfolding any_accepted
  any_accepted-true v [] h = cc
  any_accepted-true v (a ∷ accepts) h = elim (Bool-cases (matches (mime_of v) a)) [
    | inl e ↦ ([], a, accepts, refl, e)
    | inr e ↦
        let (pre, b, post, s, m) = any_accepted-true v accepts (rw e at h) in
        (a ∷ pre, b, post, ap (◌∷◌ a) s, m)
  ]

  any_accepted-false :
      (v : V) (accepts : List MimeType)
      → any_accepted mime_of v accepts ≡ false
      → All (λ a. matches (mime_of v) a ≡ false) accepts
  unfolding any_accepted
  any_accepted-false v [] h = tt
  any_accepted-false v (a ∷ accepts) h = ground (arith, any_accepted-false v accepts)

  first_viewer-none :
      (a : MimeType) (vs : List V) → first_viewer mime_of a vs ≡ none → NoneOffers a vs
  unfolding first_viewer
  first_viewer-none a [] h = tt
  first_viewer-none a (v ∷ vs) h = ground (arith, first_viewer-none a vs)

  first_viewer-some :
      (a : MimeType) (vs : List V) (v : V)
      → first_viewer mime_of a vs ≡ some v
      → (before : List V) × (behind : List V) × (vs ≡ before ++ v ∷ behind)
        × NoneOffers a before
        × (matches (mime_of v) a ≡ true)
  unfolding first_viewer
  first_viewer-some a [] v h = cc
  first_viewer-some a (w ∷ vs) v h = elim (Bool-cases (matches (mime_of w) a)) [
    | inl e ↦ ([], vs, ground arith, tt, ground arith)
    | inr e ↦
        let (before, behind, s, missed, m) = first_viewer-some a vs v (rw e at h) in
        (w ∷ before, behind, ap (◌∷◌ w) s, (e, missed), m)
  ]

  negotiate-none :
      (accepts : List MimeType) (vs : List V)
      → negotiate mime_of accepts vs ≡ none
      → NoneMatches accepts vs
  unfolding negotiate
  negotiate-none [] vs h = tt
  negotiate-none (a ∷ accepts) vs h = elim (Option-cases (first_viewer mime_of a vs)) [
    | inl e ↦ (first_viewer-none a vs e, negotiate-none accepts vs (rw (e, negotiate) at h))
    | inr (v, e) ↦ cc (rw (e, negotiate) at h)
  ]

  IsBest-cons :
      {accepts : List MimeType} {vs : List V} {v : V} (a : MimeType)
      → NoneOffers a vs
      → IsBest accepts vs v
      → IsBest (a ∷ accepts) vs v
  IsBest-cons a missed b = record {
    preferred = a ∷ b.preferred;
    type = b.type;
    later = b.later;
    before = b.before;
    behind = b.behind;
    accepts_split = ap (◌∷◌ a) b.accepts_split;
    preferred_missed = (missed, b.preferred_missed);
    viewers_split = b.viewers_split;
    before_missed = b.before_missed;
    offered = b.offered;
  }

  IsBest-head :
      {accepts : List MimeType} {vs : List V} {v : V} (a : MimeType)
      → ((before : List V) × (behind : List V) × (vs ≡ before ++ v ∷ behind)
          × NoneOffers a before
          × (matches (mime_of v) a ≡ true))
      → IsBest (a ∷ accepts) vs v
  IsBest-head {accepts} a (before, behind, split, missed, offered) = record {
    preferred = [];
    type = a;
    later = accepts;
    before = before;
    behind = behind;
    accepts_split = refl;
    preferred_missed = tt;
    viewers_split = split;
    before_missed = missed;
    offered = offered;
  }

  negotiate-some :
      (accepts : List MimeType) (vs : List V) (v : V)
      → negotiate mime_of accepts vs ≡ some v
      → IsBest accepts vs v
  unfolding negotiate
  negotiate-some [] vs v h = cc
  negotiate-some (a ∷ accepts) vs v h = elim (Option-cases (first_viewer mime_of a vs)) [
    | inl e ↦
        IsBest-cons a (first_viewer-none a vs e)
          (negotiate-some accepts vs v (rw (e, negotiate) at h))
    | inr (w, e) ↦ IsBest-head a (first_viewer-some a vs v (e ∙ (rw (e, negotiate) at h)))
  ]

  fallback-IsChosen :
      (named : Option V) (accepts : List MimeType) (vs : List V)
      → SuitsNone named accepts
      → NoneMatches accepts vs
      → IsChosen named accepts vs (fallback named vs)
  unfolding fallback
  fallback-IsChosen (some v) accepts vs u m = by_name_only v refl u m
  fallback-IsChosen none accepts [] u m = not_found refl refl
  fallback-IsChosen none accepts (v ∷ vs) u m = by_order v vs refl m refl

  view_from-IsChosen :
      (named : Option V) (accepts : List MimeType) (vs : List V)
      → SuitsNone named accepts
      → IsChosen named accepts vs (view_from mime_of (named, false) accepts vs)
  unfolding view_from
  view_from-IsChosen named accepts vs u = elim (Option-cases (negotiate mime_of accepts vs)) [
    | inl e ↦ rw (e, view_from) (fallback-IsChosen named accepts vs u (negotiate-none accepts vs e))
    | inr (v, e) ↦ rw (e, view_from) (by_type v u (negotiate-some accepts vs v e))
  ]

  view_named-IsChosen :
      (v : V) (accepts : List MimeType) (vs : List V)
      → IsChosen
          (some v)
          accepts
          vs
          (view_from mime_of (some v, any_accepted mime_of v accepts) accepts vs)
  unfolding view_from
  view_named-IsChosen v accepts vs = elim (Bool-cases (any_accepted mime_of v accepts)) [
    | inl e ↦ rw e (by_name v refl (any_accepted-true v accepts e))
    | inr e ↦ rw e (view_from-IsChosen (some v) accepts vs (any_accepted-false v accepts e))
  ]

  view-IsChosen_name :
      (viewers : Dict V) (accepts : List MimeType) (vs : List V) (name : Bytes)
      → IsChosen
          (named_viewer viewers name)
          accepts
          vs
          (view_from mime_of (get_viewer mime_of viewers accepts name) accepts vs)
  unfolding get_viewer
  view-IsChosen_name viewers accepts vs [] = view_from-IsChosen none accepts vs tt
  view-IsChosen_name viewers accepts vs (c ∷ name) =
      elim (Option-cases (lookup (c ∷ name) viewers)) [
        | inl e ↦ rw (e, get_viewer) (view_from-IsChosen none accepts vs tt)
        | inr (v, e) ↦ rw (e, get_viewer) (view_named-IsChosen v accepts vs)
      ]

  -- `View` renders with the viewer of the first name if that viewer produces an accepted type;
  -- else with the first viewer of the route for the first accepted type that has one; else with the
  -- viewer of the name whatever it produces; else with the route's first viewer. It fails with
  -- ErrViewNotFound when no viewer has the name and the route has no viewer.
  pub view-IsChosen :
      (viewers : Dict V) (accepts : List MimeType) (vs : List V) (options : List Bytes)
      → IsChosen
          (named_viewer viewers (name_of options))
          accepts
          vs
          (view mime_of viewers accepts vs options)
  unfolding view
  view-IsChosen viewers accepts vs options = view-IsChosen_name viewers accepts vs (name_of options)
