-- ===== src/Wire/Fuel.antt =====
-- The loop of `parseClientInput` (internal/ptyproxy/server.go) ends.
use claude_master_go.Base.{
  ℕ, zero, suc, ◌≡◌, ◌<◌, inl, inr, true, false, ◌||◌, List, [], ◌∷◌, ◌++◌, ◌==◌, ltb, Bytes,
  length, drop, has_prefix, arith, length-drop, Bool-cases,
}
use claude_master_go.Wire.{
  Action, Turn, wait, resize_magic, scroll_magic, image_magic, resize_turn, scroll_turn,
  payload_turn, image_turn, cut, text_turn, turn, turns, parse_client_input, max_image_bytes,
}

-- A turn that goes on has used up a byte.
record Shrinks (b : Bytes) (t : Turn) : Type 0 where
  shorter : t.again ≡ true → length t.rest < length b

wait-Shrinks : (b : Bytes) → Shrinks b (wait b)
wait-Shrinks b = record { shorter = λ e. cc }

resize_turn-Shrinks : (b : Bytes) → Shrinks b (resize_turn b)
unfolding resize_turn
resize_turn-Shrinks (_ ∷ _ ∷ _ ∷ _ ∷ _ ∷ _ ∷ rest) = record { shorter = λ e. omega arith }
resize_turn-Shrinks [] = wait-Shrinks []
resize_turn-Shrinks (a ∷ []) = wait-Shrinks _
resize_turn-Shrinks (a ∷ b ∷ []) = wait-Shrinks _
resize_turn-Shrinks (a ∷ b ∷ c ∷ []) = wait-Shrinks _
resize_turn-Shrinks (a ∷ b ∷ c ∷ d ∷ []) = wait-Shrinks _
resize_turn-Shrinks (a ∷ b ∷ c ∷ d ∷ e ∷ []) = wait-Shrinks _

scroll_turn-Shrinks : (b : Bytes) → Shrinks b (scroll_turn b)
unfolding scroll_turn
scroll_turn-Shrinks (_ ∷ _ ∷ _ ∷ _ ∷ rest) = record { shorter = λ e. omega arith }
scroll_turn-Shrinks [] = wait-Shrinks []
scroll_turn-Shrinks (a ∷ []) = wait-Shrinks _
scroll_turn-Shrinks (a ∷ b ∷ []) = wait-Shrinks _
scroll_turn-Shrinks (a ∷ b ∷ c ∷ []) = wait-Shrinks _

payload_turn-Shrinks :
    (n code : ℕ) (whole rest : Bytes)
    → length rest < length whole
    → Shrinks whole (payload_turn n code whole rest)
unfolding payload_turn
payload_turn-Shrinks n code whole rest h = elim (Bool-cases (n == 0 || ltb max_image_bytes n)) [
  | inl e ↦ simp e (record { shorter = λ o. h })
  | inr e ↦ elim (Bool-cases (ltb (length rest) n)) [
    | inl s ↦ simp (e, s) (wait-Shrinks whole)
    | inr s ↦ simp (e, s) (record { shorter = λ o. omega (arith, length-drop n rest) })
  ]
]

image_turn-Shrinks : (b : Bytes) → Shrinks b (image_turn b)
unfolding image_turn
image_turn-Shrinks (_ ∷ _ ∷ _ ∷ _ ∷ _ ∷ _ ∷ _ ∷ rest) =
    payload_turn-Shrinks _ _ _ rest (omega arith)
image_turn-Shrinks [] = wait-Shrinks []
image_turn-Shrinks (a ∷ []) = wait-Shrinks _
image_turn-Shrinks (a ∷ b ∷ []) = wait-Shrinks _
image_turn-Shrinks (a ∷ b ∷ c ∷ []) = wait-Shrinks _
image_turn-Shrinks (a ∷ b ∷ c ∷ d ∷ []) = wait-Shrinks _
image_turn-Shrinks (a ∷ b ∷ c ∷ d ∷ e ∷ []) = wait-Shrinks _
image_turn-Shrinks (a ∷ b ∷ c ∷ d ∷ e ∷ f ∷ []) = wait-Shrinks _

drop_shorter : (c : ℕ) (b : Bytes) → 0 < c → 0 < length b → length (drop c b) < length b
drop_shorter c b h k = omega (arith, length-drop c b)

text_turn-Shrinks : (b : Bytes) → Shrinks b (text_turn b)
unfolding text_turn cut
text_turn-Shrinks [] = wait-Shrinks []
text_turn-Shrinks (x ∷ xs) = elim (Bool-cases (cut (x ∷ xs) == 0)) [
  | inl e ↦ simp e (wait-Shrinks (x ∷ xs))
  | inr e ↦
      simp e
        (record { shorter = λ o. drop_shorter (cut (x ∷ xs)) (x ∷ xs) (positive e) (omega arith) })
]
  where
    positive : (cut (x ∷ xs) == 0) ≡ false → 0 < cut (x ∷ xs)
    positive e = ground arith

turn-Shrinks : (b : Bytes) → Shrinks b (turn b)
unfolding turn
turn-Shrinks b = elim (Bool-cases (has_prefix b resize_magic)) [
  | inl r ↦ simp r (resize_turn-Shrinks b)
  | inr r ↦ elim (Bool-cases (has_prefix b scroll_magic)) [
    | inl s ↦ simp (r, s) (scroll_turn-Shrinks b)
    | inr s ↦ elim (Bool-cases (has_prefix b image_magic)) [
      | inl i ↦ simp (r, s, i) (image_turn-Shrinks b)
      | inr i ↦ simp (r, s, i) (text_turn-Shrinks b)
    ]
  ]
]

-- The turns of the loop without a bound: one that says so ends it with what it leaves, and any other is
-- followed by the turns on the rest.
pub data Ends : Bytes → List Action × Bytes → Type 0 where
  stops : (b : Bytes) → (turn b).again ≡ false → Ends b ((turn b).did, (turn b).rest)
  goes_on :
      (b : Bytes) (r : List Action × Bytes)
      → (turn b).again ≡ true
      → Ends ((turn b).rest) r
      → Ends b ((turn b).did ++ r.0, r.1)

turns-Ends : (fuel : ℕ) (b : Bytes) → length b < fuel → Ends b (turns fuel b)
unfolding turns
turns-Ends zero b h = absurd (omega arith)
turns-Ends (suc fuel) b h = elim (Bool-cases ((turn b).again)) [
  | inl on ↦ rw on (
      goes_on b (turns fuel ((turn b).rest)) on
        (turns-Ends fuel ((turn b).rest) (omega (arith, (turn-Shrinks b).shorter on))))
  | inr off ↦ rw off (stops b off)
]

-- On every input the loop of `parseClientInput`, which has no bound, comes to a turn that ends it, and
-- what it has done and leaves by then is the result of the model, whose fuel never runs out.
pub parse_client_input-Ends : (b : Bytes) → Ends b (parse_client_input b)
unfolding parse_client_input
parse_client_input-Ends b = turns-Ends (suc (length b)) b (omega arith)
