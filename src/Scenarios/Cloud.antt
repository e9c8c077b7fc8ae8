-- ===== src/Scenarios/Cloud.antt =====
-- Concrete inputs for internal/cloud/state: documents in memory, a clock whose times are a byte, two
-- sessions, a pairing code and a grant.
use claude_master_go.Base.{
  is_empty, ℕ, ◌≡◌, ◌⊎◌, Bool, refl, true, false, Option, none, some, List, [], ◌∷◌, Bytes, lookup,
  ◌++◌, arith,
}
use claude_master_go.Cloud.Store.{Field, Doc, Place, Clock, text_field, as_text, with_faults}
use claude_master_go.Cloud.Store.Memory.{memory, memory-IsLawful, same, read, remove, Memory}
use claude_master_go.Cloud.Push.{
  ordered, or_else, push_status, push_sessions, write_session, version_for, announce,
}
use claude_master_go.Cloud.Push.Hash.{Reordered, ordered-Reordered}
use claude_master_go.Cloud.Push.Again.{Distinct, Apart, push_status-push_status}
use claude_master_go.Cloud.Pairing.{create_pairing, consume_pairing}
use claude_master_go.Cloud.Pairing.Once.{consume_pairing-twice}
use claude_master_go.Cloud.Grant.{
  source_role, is_refused, put_relay_grant, set_revoked, check_relay_grant, is_revoked, exists,
}
use claude_master_go.Cloud.Grant.Access.{
  Admitted, check_relay_grant-Admitted, check_relay_grant-put_relay_grant,
  check_relay_grant-set_revoked,
}

parse_one : Bytes → Option ℕ
parse_one (t ∷ []) = some t
parse_one _ = none

abbrev clock : Clock
clock = record { format = λ t. t ∷ []; format_nano = λ t. t ∷ []; parse = parse_one }

-- A digest that keeps the keys.
keys : List (Bytes × Field) → Bytes
keys [] = []
keys ((k, Field.text v) ∷ m) = k ++ v ++ keys m
keys ((k, v) ∷ m) = k ++ keys m

abbrev key_of : Bytes → Doc
key_of k = (b'k' ∷ b'e' ∷ b'y' ∷ [], Field.text k) ∷ []

abbrev one : Doc
one = key_of (49 ∷ [])

abbrev two : Doc
two = key_of (50 ∷ 50 ∷ [])

abbrev nothing : Memory
nothing = []

ordered-Reordered_example :
    ordered ((49 ∷ [], Field.text []) ∷ (50 ∷ 50 ∷ [], Field.text []) ∷ [])
    ≡ ordered ((50 ∷ 50 ∷ [], Field.text []) ∷ (49 ∷ [], Field.text []) ∷ [])
ordered-Reordered_example =
    ordered-Reordered ((49 ∷ [], Field.text []) ∷ (50 ∷ 50 ∷ [], Field.text []) ∷ [])
      ((50 ∷ 50 ∷ [], Field.text []) ∷ (49 ∷ [], Field.text []) ∷ []) (Reordered.swap (λ e. cc))

two_sessions-Distinct : Distinct (one ∷ two ∷ [])
unfolding text_field as_text lookup or_else
two_sessions-Distinct =
    Distinct.cons (Apart.cons (λ e. cc) Apart.nil) (Distinct.cons Apart.nil Distinct.nil)

-- Every read fails but those of the sessions, the grants and the revocations.
abbrev faults : Place → Bool
faults (Place.session pc k) = false
faults (Place.revoked pc) = false
faults (Place.relay_grant id) = false
faults _ = true

push_status-push_status_example :
    push_status
      (with_faults faults memory)
      clock
      keys
      8
      []
      (one ∷ two ∷ [])
      ((push_status memory clock keys 7 [] (one ∷ two ∷ []) nothing).0)
    ≡ ((push_status memory clock keys 7 [] (one ∷ two ∷ []) nothing).0, (0, false))
unfolding announce push_sessions write_session version_for read same keys or_else text_field lookup
    remove
push_status-push_status_example =
    push_status-push_status memory clock keys memory-IsLawful faults 7 8 [] (one ∷ two ∷ []) nothing
      two_sessions-Distinct (λ k. refl) refl

abbrev paired : Memory
paired = (create_pairing memory clock 4 (5 ∷ []) (6 ∷ []) (7 ∷ []) 10 nothing).0

consume_pairing-twice_example :
    (consume_pairing memory clock 9 (5 ∷ []) ((consume_pairing memory clock 8 (5 ∷ []) paired).0)).1
    ≡ none
consume_pairing-twice_example =
    consume_pairing-twice memory clock memory-IsLawful 8 9 (5 ∷ []) paired refl

abbrev granted : Memory
granted = (put_relay_grant memory clock 4 (6 ∷ []) (5 ∷ []) source_role 60 nothing).0

check_relay_grant-Admitted_example :
    ((check_relay_grant memory clock 9 (5 ∷ []) source_role granted ≡ true)
      × Admitted memory clock 9 (5 ∷ []) source_role granted)
    ⊎ ((check_relay_grant memory clock 9 (5 ∷ []) source_role granted ≡ false)
        × (¬ Admitted memory clock 9 (5 ∷ []) source_role granted))
check_relay_grant-Admitted_example =
    check_relay_grant-Admitted memory clock 9 (5 ∷ []) source_role granted

check_relay_grant-put_relay_grant_example :
    check_relay_grant memory clock 9 (5 ∷ []) source_role granted ≡ true
unfolding put_relay_grant is_refused is_revoked exists read same is_empty parse_one
check_relay_grant-put_relay_grant_example =
    check_relay_grant-put_relay_grant memory clock memory-IsLawful 4 9 64 60 (6 ∷ []) (5 ∷ [])
      source_role nothing refl refl refl (omega arith) refl

check_relay_grant-set_revoked_example :
    check_relay_grant (with_faults faults memory) clock 9 (5 ∷ []) source_role (
      (put_relay_grant memory clock 4
        (6 ∷ [])
        (5 ∷ [])
        source_role
        60
        ((set_revoked memory clock 3 (6 ∷ []) nothing).0)).0)
    ≡ false
unfolding put_relay_grant is_refused is_empty set_revoked
check_relay_grant-set_revoked_example =
    check_relay_grant-set_revoked memory clock memory-IsLawful faults 3 4 9 60 (6 ∷ []) (5 ∷ [])
      source_role nothing refl refl refl refl

abbrev sid : Bytes
sid = 5 ∷ []

abbrev known_pc : Memory
known_pc = (Place.pc (6 ∷ []), []) ∷ []
