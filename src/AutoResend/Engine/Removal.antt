-- ===== src/AutoResend/Engine/Removal.antt =====
-- `removeMessagesForSerial` of auto_resend/src/MpAutoResendEngine.cpp, and the sort after it.
use end_to_end_smkex.Base.{
  ◌≤◌, ◌≡◌, refl, ap, subst, ◌∙◌, false, List, [], ◌∷◌, none, some, ltb, MpString, Map, str_eq,
  str_eq_iff, str_eq_refl, find, find-erase, done, fault, arith, Bool-cases, Option-cases, inl, inr,
}
use end_to_end_smkex.AutoResend.Pool.{MpMsgPool}
use end_to_end_smkex.AutoResend.Engine.{
  MpAutoResendEngine, weight_sort_cmp, bubble, bubble_until_sorted, sort_messages,
}
use end_to_end_smkex.AutoResend.Engine.Sift.{count}
use end_to_end_smkex.AutoResend.Engine.Run.{send_message, remove_messages_for_serial}
use end_to_end_smkex.AutoResend.Engine.Offers.{listed}
use end_to_end_smkex.AutoResend.Engine.Indexed.{IsIndexed}

-- A serial without a pool is none that has one.
count-other :
    (pools : Map MpMsgPool) (k x : MpString) (xs : List MpString) (p : MpMsgPool)
    → find k pools ≡ none
    → find x pools ≡ some p
    → count k (x ∷ xs) ≡ count k xs
unfolding count
count-other pools k x xs p missing there = ground (arith, str_eq_iff x k, missing, there)

-- A run over two serials or more, one of them without a pool, meets it.
bubble-missing :
    (pools : Map MpMsgPool) (k x y : MpString) (ys : List MpString)
    → find k pools ≡ none
    → 1 ≤ count k (x ∷ y ∷ ys)
    → bubble pools x (y ∷ ys) ≡ fault
unfolding bubble weight_sort_cmp count
bubble-missing pools k x y [] missing many = elim (Option-cases (find x pools)) [
  | inl no_x ↦ rw no_x
  | inr (p, has_x) ↦ elim (Option-cases (find y pools)) [
    | inl no_y ↦ rw (has_x, no_y)
    | inr (q, has_y) ↦ absurd (
        omega (
          arith,
          many,
          count-other pools k x (y ∷ []) p missing has_x,
          count-other pools k y [] q missing has_y,
        ))
  ]
]
bubble-missing pools k x y (z ∷ zs) missing many = elim (Option-cases (find x pools)) [
  | inl no_x ↦ rw no_x
  | inr (p, has_x) ↦ elim (Option-cases (find y pools)) [
    | inl no_y ↦ rw (has_x, no_y)
    | inr (q, has_y) ↦
        let past_x = count-other pools k x (y ∷ z ∷ zs) p missing has_x in
        let past_y = count-other pools k y (z ∷ zs) q missing has_y in
        let again_x = count-other pools k x (z ∷ zs) p missing has_x in
        elim (Bool-cases (ltb q.weight p.weight)) [
          | inl b ↦ rw (
            has_x,
            has_y,
            b,
            bubble-missing pools k x z zs missing (omega (arith, many, past_x, past_y, again_x)),
          )
          | inr b ↦
              rw (
                has_x,
                has_y,
                b,
                bubble-missing pools k y z zs missing (omega (arith, many, past_x)),
              )
        ]
  ]
]

sort_messages-missing :
    (e : MpAutoResendEngine) (k x y : MpString) (ys : List MpString)
    → e.priority ≡ x ∷ y ∷ ys
    → find k e.user_pool ≡ none
    → 1 ≤ count k e.priority
    → sort_messages e ≡ fault
unfolding sort_messages bubble_until_sorted
sort_messages-missing e k x y ys long missing many =
    let stuck =
      bubble-missing e.user_pool k x y ys missing (subst (λ l. 1 ≤ count k l) long many) in
    ground (arith, long, stuck)

-- Two serials in a list make it two entries long.
two-long :
    (xs : List MpString) (j k : MpString)
    → 1 ≤ count j xs
    → 1 ≤ count k xs
    → str_eq k j ≡ false
    → (x : MpString) × (y : MpString) × (ys : List MpString) × (xs ≡ x ∷ y ∷ ys)
unfolding count
two-long [] j k hj hk ne = absurd (omega arith)
two-long (x ∷ []) j k hj hk ne =
    absurd (ground (arith, str_eq_iff x j, str_eq_iff x k, str_eq_iff k j))
two-long (x ∷ y ∷ ys) j k hj hk ne = (x, y, ys, refl)

-- On an engine with a transport whose priority list names each pool once and nothing else,
-- removing one serial's messages while another serial has some makes the next send undefined: the
-- serial stays in the priority list, and the sort dereferences the end of the map for it.
pub remove_messages_for_serial-breaks_send :
    (e e' : MpAutoResendEngine) (serial other : MpString) (p q : MpMsgPool)
    → IsIndexed e
    → find serial e.user_pool ≡ some p
    → find other e.user_pool ≡ some q
    → str_eq serial other ≡ false
    → remove_messages_for_serial serial e ≡ done e'
    → send_message e' ≡ fault
unfolding remove_messages_for_serial send_message listed
remove_messages_for_serial-breaks_send e e' serial other p q h there too ne removed =
    let one : count serial e.priority ≡ 1 = ground (arith, h serial, there) in
    let two : count other e.priority ≡ 1 = ground (arith, h other, too) in
    let (x, y, ys, long) =
      two-long e.priority other serial (omega (arith, two)) (omega (arith, one)) ne in
    let gone : find serial e'.user_pool ≡ none =
      ground (arith, removed, find-erase serial serial e.user_pool, str_eq_refl serial) in
    let stays : e'.priority ≡ e.priority = ground (arith, removed) in
    let stuck =
      sort_messages-missing e' serial x y ys (stays ∙ long) gone
        (omega (arith, one, ap (count serial) stays)) in
    rw stuck
