-- ===== src/Orchestrator/Order/Laws.antt =====
-- The dispatch order of internal/orchestrator/orchestrator.go is determined, and is the one promised.
use my_symphony.Base.{
  ◌∷◌, ◌∙◌, sym, some, refl, pos, none, [], Option, All, eq_of_parts, inl, inr, ◌<ℤ◌, ◌↔◌, List,
  Bool-cases, ◌≡◌, Bool, true, false, not, ℤ, ltb_ℤ, eqb_ℤ, arith, if◌then◌else◌,
}
use my_symphony.Go.Utf8.{Text, text_lt, text_lt_asym, text_lt_neg_trans}
use my_symphony.Orchestrator.Order.{created_key, priority_key, dispatch_less, sort_for_dispatch}
use my_symphony.Domain.{Issue}
use my_symphony.Go.Sort.{
  slice_stable, slice_stable-equals, slice_stable-Ordered, slice_stable-perm, equals, Ordered,
  IsStrictWeak,
}
use mathlib.Core.List.{Perm}
use my_symphony.Go.Int64.{wrap}

-- The comparison of dispatch_less on the keys alone.
lex : ℤ → ℤ → Text → ℤ → ℤ → Text → Bool
lex pa ca ia pb cb ib =
    if not (eqb_ℤ pa pb)
    then ltb_ℤ pa pb
    else if not (eqb_ℤ ca cb)
    then ltb_ℤ ca cb
    else text_lt ia ib

lex_asym :
    (pa ca : ℤ) (ia : Text) (pb cb : ℤ) (ib : Text)
    → lex pa ca ia pb cb ib ≡ true
    → lex pb cb ib pa ca ia ≡ false
unfolding lex
lex_asym pa ca ia pb cb ib h = ground (arith, text_lt_asym ia ib)

lex_neg_trans :
    (pa ca : ℤ) (ia : Text) (pb cb : ℤ) (ib : Text) (pc cc' : ℤ) (ic : Text)
    → lex pa ca ia pb cb ib ≡ false
    → lex pb cb ib pc cc' ic ≡ false
    → lex pa ca ia pc cc' ic ≡ false
unfolding lex
lex_neg_trans pa ca ia pb cb ib pc cc' ic h k = ground (arith, text_lt_neg_trans ia ib ic)

dispatch_less-IsStrictWeak : IsStrictWeak dispatch_less
unfolding dispatch_less lex
dispatch_less-IsStrictWeak = record {
  asym = λ a b.
      lex_asym (priority_key a.priority) (created_key a.created_at) a.identifier
        (priority_key b.priority) (created_key b.created_at) b.identifier;
  neg_trans = λ a b c.
      lex_neg_trans (priority_key a.priority) (created_key a.created_at) a.identifier
        (priority_key b.priority) (created_key b.created_at) b.identifier (priority_key c.priority)
        (created_key c.created_at) c.identifier;
}

-- The rank of a priority: the number itself, and the greatest int64 where there is none.
abbrev pub rank : Option ℤ → ℤ
rank none = pos 9_223_372_036_854_775_807
rank (some p) = p

-- The instant of a creation, as an int64 of nanoseconds, and the latest one where it is unknown.
abbrev pub instant : Option ℤ → ℤ
instant none = pos 9_223_372_036_854_775_807
instant (some t) = wrap t

rank_lem : (p : Option ℤ) → priority_key p ≡ rank p
unfolding priority_key
rank_lem none = refl
rank_lem (some p) = refl

instant_lem : (t : Option ℤ) → created_key t ≡ instant t
unfolding created_key
instant_lem none = refl
instant_lem (some t) = refl

-- When an issue comes before another: the lower priority number, then the older, then the lesser
-- identifier. A missing priority or time is the greatest.
pub data Before (a b : Issue) : Type 0 where
  by_priority : rank a.priority <ℤ rank b.priority → Before a b
  by_age :
      rank a.priority ≡ rank b.priority → instant a.created_at <ℤ instant b.created_at → Before a b
  by_identifier :
      rank a.priority ≡ rank b.priority
      → instant a.created_at ≡ instant b.created_at
      → text_lt a.identifier b.identifier ≡ true
      → Before a b

-- The comparison by ranks and instants.
less_ranks :
    (a b : Issue)
    → dispatch_less a b
      ≡ lex
          (rank a.priority)
          (instant a.created_at)
          a.identifier
          (rank b.priority)
          (instant b.created_at)
          b.identifier
unfolding dispatch_less lex
less_ranks a b =
    rw
      (rank_lem a.priority, rank_lem b.priority, instant_lem a.created_at, instant_lem b.created_at)
      refl

lex_sound :
    (a b : Issue)
    → lex
        (rank a.priority)
        (instant a.created_at)
        a.identifier
        (rank b.priority)
        (instant b.created_at)
        b.identifier
      ≡ true
    → Before a b
unfolding lex
lex_sound a b h = elim (Bool-cases (eqb_ℤ (rank a.priority) (rank b.priority))) [
  | inr p ↦ by_priority (ground arith)
  | inl p ↦ elim (Bool-cases (eqb_ℤ (instant a.created_at) (instant b.created_at))) [
    | inr c ↦ by_age (eq_of_parts _ _ (ground arith)) (ground arith)
    | inl c ↦
        by_identifier (eq_of_parts _ _ (ground arith)) (eq_of_parts _ _ (ground arith))
          (ground arith)
  ]
]

lex_complete :
    (a b : Issue)
    → Before a b
    → lex
        (rank a.priority)
        (instant a.created_at)
        a.identifier
        (rank b.priority)
        (instant b.created_at)
        b.identifier
      ≡ true
unfolding lex
lex_complete a b (by_priority h) = ground arith
lex_complete a b (by_age p h) = ground arith
lex_complete a b (by_identifier p c h) = ground arith

-- The comparison of sortForDispatch puts one issue before another exactly if it has the lower
-- priority number, or the same and is older, or both the same and the lesser identifier; a missing
-- priority counts as the greatest int64, and so does a missing time.
pub dispatch_less_iff : (a b : Issue) → (dispatch_less a b ≡ true) ↔ Before a b
dispatch_less_iff a b =
    ((λ h. lex_sound a b (sym (less_ranks a b) ∙ h)), (λ h. less_ranks a b ∙ lex_complete a b h))

-- No issue of a list should come before one that stands earlier.
abbrev pub IsOrdered : List Issue → Type 0
IsOrdered [] = Unit {0}
IsOrdered (a ∷ rest) = All (λ b. ¬ Before b a) rest × IsOrdered rest

not-Before :
    (a : Issue) (rest : List Issue)
    → All (λ b. dispatch_less b a ≡ false) rest
    → All (λ b. ¬ Before b a) rest
not-Before a [] h = tt
not-Before a (b ∷ rest) h =
    ((λ before. absurd (ground (arith, (dispatch_less_iff b a).1 before))), not-Before a rest h.1)

Ordered-IsOrdered : (issues : List Issue) → Ordered dispatch_less issues → IsOrdered issues
Ordered-IsOrdered [] h = tt
Ordered-IsOrdered (a ∷ rest) h = (not-Before a rest h.0, Ordered-IsOrdered rest h.1)

-- sortForDispatch gives the same issues, ordered by priority (a missing one last), age (a missing
-- time last) and identifier: none stands after an issue that it comes before. Issues that compare
-- equal stay in the tracker's order.
pub sort_for_dispatch_lem :
    (issues : List Issue)
    → Perm (sort_for_dispatch issues) issues
      × IsOrdered (sort_for_dispatch issues)
      × ((k : Issue)
          → equals dispatch_less k (sort_for_dispatch issues) ≡ equals dispatch_less k issues)
unfolding sort_for_dispatch
sort_for_dispatch_lem issues = (
  slice_stable-perm dispatch_less issues,
  Ordered-IsOrdered (slice_stable dispatch_less issues)
      (slice_stable-Ordered dispatch_less dispatch_less-IsStrictWeak issues),
  λ k. slice_stable-equals dispatch_less dispatch_less-IsStrictWeak k issues,
)
