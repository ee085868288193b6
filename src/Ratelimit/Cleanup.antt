-- ===== src/Ratelimit/Cleanup.antt =====
-- Cleanup is not observable: it removes only windows that are over.
use mgl_communication.Base.{
  Bool-cases, List, Bool, false, All, inl, inr, ap, sym, ℕ, ◌≤◌, ◌≡◌, refl, Option, none, some, [],
  ◌∷◌, ltb, lookup, arith, NodupKeys,
}
use mgl_communication.Ratelimit.{Bucket, Limiter, allow, cleanup}
use mgl_communication.Ratelimit.Window.{Event, request, sweep, time, after, passes}
use mgl_communication.Ratelimit.Agreement.{
  Agree, Related, still_open, allow-Agree, sweep-Agree, drop_expired-NodupKeys, lookup-drop_expired,
}

-- What each of the events is answered.
unfoldable pub answers : Limiter → List Event → List Bool
answers l [] = []
answers l (e ∷ es) = passes l e ∷ answers (after l e) es

answers-Agree :
    (now : ℕ) (l c : Limiter) (es : List Event)
    → Agree now l c
    → All (λ e. now ≤ time e) es
    → answers c es ≡ answers l es
unfolding answers
answers-Agree now l c [] a h = refl
answers-Agree now l c (request k at ∷ es) a h =
    let step = allow-Agree now k at l c h.0 a in
    rw (step.0, answers-Agree now (allow l k at).0 (allow c k at).0 es step.1 h.1) refl
answers-Agree now l c (sweep at ∷ es) a h =
    ap (λ x. false ∷ x)
      (answers-Agree now (cleanup l at) (cleanup c at) es (sweep-Agree now at l c h.0 a) h.1)

swept_entry : (now : ℕ) (o p : Option Bucket) → p ≡ still_open now o → Related now o p
swept_entry now none p e = inl (sym e)
swept_entry now (some b) p e = elim (Bool-cases (ltb b.reset_at now)) [
  | inl r ↦ inr (ground (arith, r, e), b, refl, r)
  | inr r ↦ inl (ground (arith, r, e))
]

-- A cleanup is not observable: with distinct keys, any sequence of requests and further cleanups
-- at the time of the cleanup or later is answered as it would be without it.
pub answers-cleanup :
    (l : Limiter) (now : ℕ) (es : List Event)
    → NodupKeys l.buckets
    → All (λ e. now ≤ time e) es
    → answers (cleanup l now) es ≡ answers l es
unfolding cleanup
answers-cleanup l now es u h =
    answers-Agree now l (cleanup l now) es
      (record {
        limits = refl;
        windows = refl;
        entries =
            λ j. swept_entry now (lookup j l.buckets) _ (lookup-drop_expired j now l.buckets u);
        distinct = u;
        distinct_too = drop_expired-NodupKeys now l.buckets u;
      })
      h
