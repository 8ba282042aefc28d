-- ===== src/MsgService/Echoing.antt =====
-- An echo from the client's message to the client's response.
use sdpf.Prelude.{
  ℕ, zero, suc, ◌≤◌, ◌<◌, ◌≡◌, refl, ap, ◌∙◌, true, some, List, [], ◌∷◌, ◌++◌, length, drop,
  replicate, overwrite, ltb, pos, arith, length-append, append_assoc, lt→ltb,
}
use sdpf.Dispatcher.{MsgPack, c_str, text_size}
use sdpf.Dispatcher.Roundtrip.{IsInt32}
use sdpf.Dispatcher.Messages.{
  Msg, has_zero, message_bytes, serialize, deserialize, received, deserialize-serialize,
}
use sdpf.RpcController.{RpcControllerImp}
use sdpf.RpcChannel.Server.{starts_with}
use sdpf.MsgService.{
  echo_message, zeroed, strcpy, echo, methods, find_method, find_from, method_at, is_outside,
  echo_name, new_request, new_response, conclude, call_method,
}

-- A text without zeros.
c_str_whole : (s t : List ℕ) → c_str (c_str s ++ (0 ∷ t)) ≡ c_str s
unfolding c_str
c_str_whole [] t = refl
c_str_whole (zero ∷ s) t = refl
c_str_whole (suc x ∷ s) t = ap (◌∷◌ (suc x)) (c_str_whole s t)

has_zero_whole : (s t : List ℕ) → has_zero (c_str s ++ (0 ∷ t)) ≡ true
unfolding c_str has_zero
has_zero_whole [] t = refl
has_zero_whole (zero ∷ s) t = refl
has_zero_whole (suc x ∷ s) t = has_zero_whole s t

-- A zero stands behind the text.
c_str_short : (s : List ℕ) → has_zero s ≡ true → length (c_str s) < length s
unfolding c_str has_zero
c_str_short [] h = cc
c_str_short (zero ∷ s) h = omega arith
c_str_short (suc x ∷ s) h = omega (arith, c_str_short s h)

drop_zeros : (n k : ℕ) → k < n → (t : List ℕ) × (drop k (replicate n 0) ≡ 0 ∷ t)
drop_zeros zero k h = absurd (omega arith)
drop_zeros (suc n) zero h = (replicate n 0, refl)
drop_zeros (suc n) (suc k) h = drop_zeros n k (omega arith)

overwrite_front :
    (xs ys : List ℕ) → length ys ≤ length xs → overwrite xs 0 ys ≡ ys ++ drop (length ys) xs
overwrite_front [] [] h = refl
overwrite_front [] (y ∷ ys) h = absurd (omega arith)
overwrite_front (x ∷ xs) [] h = refl
overwrite_front (x ∷ xs) (y ∷ ys) h = ap (◌∷◌ y) (overwrite_front xs ys (omega arith))

-- An array that holds the text of a message, with a zero behind it.
abbrev holding : Msg → List ℕ → Msg
holding m t = record m { msg = c_str m.msg ++ (0 ∷ t) }

module _ (mp : MsgPack) (m : Msg) (l : length m.msg ≡ text_size) (z : has_zero m.msg ≡ true) where
  -- What is received into an object that was made for the message.
  received_lem : (t : List ℕ) × (received m zeroed ≡ holding m t)
  received_lem =
      let (t, e) =
        drop_zeros text_size (length (c_str m.msg)) (omega (arith, l, c_str_short m.msg z)) in
      (t, λ i. record { log_id = m.log_id; msg = c_str m.msg ++ e i })

  strcpy_lem :
      (t : List ℕ) → (u : List ℕ) × (strcpy zeroed.msg (holding m t).msg ≡ some (holding m u).msg)
  unfolding strcpy
  strcpy_lem t =
      let s = c_str m.msg in
      let fits : ltb (length s) text_size ≡ true =
        lt→ltb (length s) text_size (omega (arith, l, c_str_short m.msg z)) in
      let room : length (s ++ (0 ∷ [])) ≤ length zeroed.msg =
        omega (arith, length-append s (0 ∷ []), l, c_str_short m.msg z) in
      (
        drop (length (s ++ (0 ∷ []))) zeroed.msg,
        rw (has_zero_whole m.msg t, c_str_whole m.msg t, fits)
            (ap some (
              overwrite_front zeroed.msg (s ++ (0 ∷ [])) room
              ∙ append_assoc s (0 ∷ []) (drop (length (s ++ (0 ∷ []))) zeroed.msg))),
      )

  replied_lem :
      (u : List ℕ) (len : ℕ)
      → length (message_bytes mp m) ≤ len
      → serialize mp (holding m u) len
        ≡ some (pos (length (message_bytes mp m)), message_bytes mp m)
  unfolding serialize
  replied_lem u len room = rw (has_zero_whole m.msg u, c_str_whole m.msg u) (ground (arith, room))

-- What an echo comes to: the request as the server has it, and its answer.
pub record Echoed (mp : MsgPack) (m : Msg) (c : RpcControllerImp) (len : ℕ) : Type 0 where
  pub request : Msg
  pub answer : Msg
  pub got : Msg
  -- the server makes the object for the method's request, and reads the client's bytes into it
  pub made : new_request (find_method (some echo_name)) ≡ some (some (echo_message zeroed))
  pub read : deserialize mp zeroed (message_bytes mp m) ≡ some (pos 0, request)
  -- the call runs the controller's callback, without an error
  pub response : new_response (find_method (some echo_name)) ≡ some (some (echo_message zeroed))
  pub called :
      call_method
        (find_method (some echo_name))
        (some (echo_message request))
        (some (echo_message zeroed))
        (some c)
      ≡ some (record { response = some (echo_message answer); ctrl = some c; ran = c.callback })
  -- the bytes of the answer are those of the request
  pub replied :
      serialize mp answer len ≡ some (pos (length (message_bytes mp m)), message_bytes mp m)
  -- the client's object has the number and the text that were sent
  pub returned : deserialize mp zeroed (message_bytes mp m) ≡ some (pos 0, got)
  pub number : got.log_id ≡ m.log_id
  pub text : c_str got.msg ≡ c_str m.msg

-- A message whose number has 32 bits and whose array of 64 bytes has a zero, and which the server's
-- buffer has room for, is echoed: the service finds the method, reads the message into the object
-- that it makes, calls it without an error and runs the controller's callback; the answer's bytes
-- are those of the request, and the client reads from them the number and the text that it sent.
pub call_method-Echoed :
    (mp : MsgPack) (m : Msg) (c : RpcControllerImp) (len : ℕ)
    → IsInt32 m.log_id
    → length m.msg ≡ text_size
    → has_zero m.msg ≡ true
    → length (message_bytes mp m) ≤ len
    → Echoed mp m c len
unfolding new_request new_response find_method find_from method_at methods is_outside call_method
    conclude echo starts_with
call_method-Echoed mp m c len i l z room =
    let (t, came) = received_lem mp m l z in
    let (u, copied) = strcpy_lem mp m l z t in
    let (stored, read, text) = deserialize-serialize mp m zeroed len i l z room in
    record {
      request = holding m t;
      answer = holding m u;
      got = holding m t;
      made = refl;
      read = read ∙ ap (λ x. some (pos 0, x)) came;
      response = refl;
      called = rw copied refl;
      replied = replied_lem mp m l z u len room;
      returned = read ∙ ap (λ x. some (pos 0, x)) came;
      number = refl;
      text = c_str_whole m.msg t;
    }
