-- ===== src/SocketUtils/Lookup.antt =====
-- `getIfaceIP` (src/socket_utils.cpp): which entry of the interface list answers.
use mathlib.Core.Bool.{false≢true}
use lowlatency_cpp.Base.{
  Bool, true, ◌&&◌, some, List, [], ◌∷◌, ◌++◌, ◌≡◌, ◌≢◌, ◌⊎◌, refl, sym, ap, ap₂, ◌∙◌, arith,
  Bool-cases, inl, inr, ==_refl,
}
use lowlatency_cpp.SocketUtils.{
  Text, Interface, same_text, is_ipv4, text_or_empty, find_interface, get_iface_ip,
}

same_text-eq : (s t : Text) → same_text s t ≡ true → s ≡ t
unfolding same_text
same_text-eq [] [] h = refl
same_text-eq [] (d ∷ ds) h = cc
same_text-eq (c ∷ cs) [] h = cc
same_text-eq (c ∷ cs) (d ∷ ds) h = ground (arith, same_text-eq cs ds)

same_text_refl : (s : Text) → same_text s s ≡ true
unfolding same_text
same_text_refl [] = refl
same_text_refl (c ∷ cs) = ground (arith, same_text_refl cs, ==_refl c)

-- An IPv4 entry of that name.
abbrev pub Answers : Text → Interface → Type 0
Answers iface i = (i.family ≡ some 2) × (iface ≡ i.name)

abbrev pub NoneAnswers : Text → List Interface → Type 0
NoneAnswers iface [] = Unit {0}
NoneAnswers iface (i ∷ is) = (¬ Answers iface i) × NoneAnswers iface is

abbrev test : Text → Interface → Bool
test iface i = is_ipv4 i.family && same_text iface i.name

test-Answers : (iface : Text) (i : Interface) → test iface i ≡ true → Answers iface i
test-Answers iface i h = ground (arith, same_text-eq iface i.name)

Answers-test : (iface : Text) (i : Interface) → Answers iface i → test iface i ≡ true
Answers-test iface i (f, n) =
    ap₂ (λ family name. is_ipv4 family && same_text iface name) f (sym n) ∙ same_text_refl iface

-- Either no entry is an IPv4 entry of that name, and the result is empty; or the first such entry
-- gives the result, its numeric address, empty if it has none.
pub FirstAnswer : Text → List Interface → Text → Type 0
FirstAnswer iface is result =
    (NoneAnswers iface is × (result ≡ []))
    ⊎ ((before after : List Interface) × (i : Interface) × (is ≡ before ++ i ∷ after)
        × NoneAnswers iface before
        × Answers iface i
        × (result ≡ text_or_empty i.numeric))

later :
    (iface : Text) (i : Interface) (is : List Interface) (result : Text)
    → ¬ Answers iface i
    → FirstAnswer iface is result
    → FirstAnswer iface (i ∷ is) result
unfolding FirstAnswer
later iface i is result no_answer (inl (none_there, empty)) = inl ((no_answer, none_there), empty)
later iface i is result no_answer (inr (before, after, j, e, none_there, hit, r)) =
    inr (i ∷ before, after, j, ap (◌∷◌ i) e, (no_answer, none_there), hit, r)

find_interface-FirstAnswer :
    (iface : Text) (is : List Interface) → FirstAnswer iface is (find_interface iface is)
unfolding find_interface FirstAnswer
find_interface-FirstAnswer iface [] = inl (tt, refl)
find_interface-FirstAnswer iface (i ∷ is) = elim (Bool-cases (test iface i)) [
  | inl hit ↦ inr ([], is, i, refl, tt, test-Answers iface i hit, rw hit)
  | inr miss ↦ rw miss (
      later iface i is (find_interface iface is)
        (λ a. false≢true (sym miss ∙ Answers-test iface i a)) (find_interface-FirstAnswer iface is))
]

-- `getIfaceIP` of a name, when the interfaces can be listed, answers with the first IPv4 entry of
-- that name, and with nothing if there is none.
pub get_iface_ip-FirstAnswer :
    (is : List Interface) (iface : Text)
    → iface ≢ []
    → FirstAnswer iface is (get_iface_ip (some is) iface)
unfolding get_iface_ip
get_iface_ip-FirstAnswer is [] h = absurd (h refl)
get_iface_ip-FirstAnswer is (c ∷ cs) h = find_interface-FirstAnswer (c ∷ cs) is
