-- ===== src/Tests/Flows.antt =====
-- The packets of one flow.
use hyper_dpi.Prelude.{
  ℕ, ◌≡◌, ◌==◌, refl, ap, subst, Bool, true, false, inl, inr, Option, none, some, Option-cases,
  arith,
}
use hyper_dpi.Packet.{Mbuf, L2L4Result, parse_l2_l4}
use hyper_dpi.Worker.Blocked.{IsFlow}
use hyper_dpi.Tests.Hash.{key_of, position, position-eq-some}

-- The frames of the flow from port 7.
abbrev is_seventh : Option ℕ → Bool
is_seventh none = false
is_seventh (some i) = i == 7

abbrev has_key : Option L2L4Result → Bool
has_key none = false
has_key (some r) = is_seventh (position r.key)

abbrev pub of_flow : Mbuf → Bool
of_flow pkt = has_key (parse_l2_l4 pkt)

is_seventh_lem : (o : Option ℕ) → is_seventh o ≡ true → o ≡ some 7
is_seventh_lem (some i) e = ap (λ j. some j) (ground (arith, e))
is_seventh_lem none e = ground (arith, e)

pub of_flow_lem : IsFlow (key_of 7) of_flow
of_flow_lem pkt = (
  λ e. elim (Option-cases (parse_l2_l4 pkt)) [
    | inl failed ↦ absurd (let f : false ≡ true = subst (λ o. has_key o ≡ true) failed e in cc)
    | inr (r, parsed) ↦
        let at = is_seventh_lem (position r.key) (subst (λ o. has_key o ≡ true) parsed e) in
        (r, parsed, (position-eq-some r.key 7 at).1)
  ],
  λ (r, parsed, same). rw (parsed, same) refl,
)
