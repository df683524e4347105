-- ===== src/Investigate/Analysis/Marker.antt =====
-- Where the marker of the failing step stands: openqa_llm_investigate/analysis.py.
use os_autoinst_scripts.Prelude.{
  ◌≡◌, refl, Bool, true, false, ◌||◌, Option, none, some, List, [], ◌∷◌, ◌++◌, arith, any, all,
  last?, Bool-cases, inl, inr, any-append, append_assoc, append-nil, sym, ap, ◌∙◌, subst,
}
use os_autoinst_scripts.Py.Dict.{or_else}
use os_autoinst_scripts.Investigate.Step.{Step}
use os_autoinst_scripts.Investigate.Analysis.Bodies.{same_step}
use os_autoinst_scripts.Investigate.Analysis.Context.{is_bare, marker_from, marker_step}

abbrev pub first : List Step → Option Step
first [] = none
first (d ∷ ds) = some d

abbrev pub ends_bare : List Step → Bool
ends_bare ds = elim (last? ds) [ none ↦ false | some d ↦ is_bare d ]

abbrev pub has_step : Step → List Step → Bool
has_step failing ds = any (λ d. same_step d failing) ds

-- The steps from the first on that no bare failed step stands right above, up to the failing step.
pub record Marked (shown : List Step) (failing : Step) (marker : Option Step) : Type 0 where
  pub above : List Step
  pub run : List Step
  pub found : Step
  pub below : List Step
  pub parts : shown ≡ above ++ (run ++ (found ∷ below))
  pub is_failing : same_step found failing ≡ true
  pub is_first : has_step failing (above ++ run) ≡ false
  pub are_bare : all is_bare run ≡ true
  pub is_whole : ends_bare above ≡ false
  pub is_marked : marker ≡ or_else (first run) (some found)

first-snoc : (ds : List Step) (d : Step) → first (ds ++ (d ∷ [])) ≡ or_else (first ds) (some d)
first-snoc [] d = refl
first-snoc (e ∷ ds) d = refl

last-snoc : (ds : List Step) (d : Step) → last? (ds ++ (d ∷ [])) ≡ some d
last-snoc [] d = refl
last-snoc (e ∷ []) d = refl
last-snoc (e ∷ f ∷ ds) d = last-snoc (f ∷ ds) d

all-snoc :
    (p : Step → Bool) (ds : List Step) (d : Step)
    → all p ds ≡ true
    → p d ≡ true
    → all p (ds ++ (d ∷ [])) ≡ true
all-snoc p [] d h k = ground (arith, k)
all-snoc p (e ∷ ds) d h k = ground (arith, h, k, all-snoc p ds d)

Marked-moved :
    {shown shown' : List Step} {failing : Step} {marker marker' : Option Step}
    → shown ≡ shown'
    → marker ≡ marker'
    → Marked shown failing marker
    → Marked shown' failing marker'
Marked-moved e f m = record {
  above = m.above;
  run = m.run;
  found = m.found;
  below = m.below;
  parts = sym e ∙ m.parts;
  is_failing = m.is_failing;
  is_first = m.is_first;
  are_bare = m.are_bare;
  is_whole = m.is_whole;
  is_marked = sym f ∙ m.is_marked;
}

-- The run behind a step that does not fail the test, with the step in it if that is bare.
next_bare :
    (run shown : List Step) (d failing : Step)
    → same_step d failing ≡ false
    → is_bare d ≡ true
    → marker_from (first (run ++ (d ∷ []))) shown failing
      ≡ marker_from (first run) (d ∷ shown) failing
unfolding marker_from
next_bare run shown d failing s bare =
    rw s (ap (λ o. marker_from o shown failing) (first-snoc run d ∙ rw bare refl))

next_full :
    (run shown : List Step) (d failing : Step)
    → same_step d failing ≡ false
    → is_bare d ≡ false
    → marker_from none shown failing ≡ marker_from (first run) (d ∷ shown) failing
unfolding marker_from
next_full run shown d failing s full = rw s (ap (λ o. marker_from o shown failing) (rw full refl))

has_step-snoc :
    (failing d : Step) (ds : List Step)
    → has_step failing ds ≡ false
    → same_step d failing ≡ false
    → has_step failing (ds ++ (d ∷ [])) ≡ false
has_step-snoc failing d ds h s = any-append (λ d. same_step d failing) ds (d ∷ []) ∙ rw (h, s) refl

has_step-tail :
    (failing d : Step) (shown : List Step)
    → has_step failing (d ∷ shown) ≡ true
    → same_step d failing ≡ false
    → has_step failing shown ≡ true
has_step-tail failing d shown h s = subst (λ b. (b || has_step failing shown) ≡ true) s h

ends_bare-snoc :
    (ds : List Step) (d : Step) → is_bare d ≡ false → ends_bare (ds ++ (d ∷ [])) ≡ false
ends_bare-snoc ds d full =
    ap (λ (o : Option Step). elim o [ none ↦ false | some e ↦ is_bare e ]) (last-snoc ds d) ∙ full

marker_from-Marked :
    (failing : Step) (above run shown : List Step)
    → has_step failing (above ++ run) ≡ false
    → all is_bare run ≡ true
    → ends_bare above ≡ false
    → has_step failing shown ≡ true
    → Marked (above ++ (run ++ shown)) failing (marker_from (first run) shown failing)
unfolding marker_from
marker_from-Marked failing above run [] h b e k = absurd (ground (arith, k))
marker_from-Marked failing above run (d ∷ shown) h b e k = elim (Bool-cases (same_step d failing)) [
  | inl s ↦ record {
    above = above;
    run = run;
    found = d;
    below = shown;
    parts = refl;
    is_failing = s;
    is_first = h;
    are_bare = b;
    is_whole = e;
    is_marked = rw s refl;
  }
  | inr s ↦
      let tail = has_step-tail failing d shown k s in
      let moved : (above ++ run) ++ (d ∷ []) ≡ above ++ (run ++ (d ∷ [])) =
        append_assoc above run (d ∷ []) in
      let without : has_step failing (above ++ (run ++ (d ∷ []))) ≡ false =
        subst (λ ds. has_step failing ds ≡ false) moved
          (has_step-snoc failing d (above ++ run) h s) in
      elim (Bool-cases (is_bare d)) [
        | inl bare ↦
            Marked-moved (ap (λ ds. above ++ ds) (append_assoc run (d ∷ []) shown))
              (next_bare run shown d failing s bare)
              (marker_from-Marked failing above (run ++ (d ∷ [])) shown without
                (all-snoc is_bare run d b bare) e tail)
        | inr full ↦
            let upper = above ++ (run ++ (d ∷ [])) in
            Marked-moved
              (append_assoc above (run ++ (d ∷ [])) shown
                ∙ ap (λ ds. above ++ ds) (append_assoc run (d ∷ []) shown))
              (next_full run shown d failing s full)
              (marker_from-Marked failing upper [] shown
                (subst (λ ds. has_step failing ds ≡ false) (sym (append-nil upper)) without) refl
                (subst (λ ds. ends_bare ds ≡ false) moved (ends_bare-snoc (above ++ run) d full))
                tail)
      ]
]

-- If the failing step is among the shown ones, the marker goes before the first of the failed steps
-- without a text that stand right above its first occurrence, or before the step itself if none does.
pub marker_step-Marked :
    (shown : List Step) (failing : Step)
    → has_step failing shown ≡ true
    → Marked shown failing (marker_step shown failing)
unfolding marker_step
marker_step-Marked shown failing h = marker_from-Marked failing [] [] shown refl refl refl h
