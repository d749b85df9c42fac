-- ===== src/HttpClientSocket/Pieces.antt =====
-- core/system_io/https_server_io/http_client_socket.cpp: a request that is read in pieces.
use order_book_server_cpp.Prelude.{
  ℕ, ◌<◌, ◌≤◌, ◌≡◌, refl, ap, Option, none, some, Bool, true, false, List, [], ◌∷◌, ◌++◌, length,
  length-append, All, lt→ltb, ◌==◌, arith,
}
use order_book_server_cpp.Prelude.Int.{ℤ}
use order_book_server_cpp.Json.Parser.{
  Outcome, returns, throws, fault, out_of_fuel, ◌>>=◌, c_string,
}
use order_book_server_cpp.HttpRequest.Creation.{
  AnyRequest, create_new_http_request, any_is_valid_format,
}
use order_book_server_cpp.HttpClientSocket.{
  Reaction, waits, Handling, buffer_size, check_format, check_request, handle_message, handle_read,
}

-- No byte is zero.
abbrev pub IsText : List ℕ → Type 0
IsText s = All (λ c. 0 < c) s

IsText-append : (s t : List ℕ) → IsText s → IsText t → IsText (s ++ t)
IsText-append [] t hs ht = ht
IsText-append (c ∷ s) t hs ht = (hs.0, IsText-append s t hs.1 ht)

c_string-IsText : (s : List ℕ) → IsText s → c_string s ≡ s
unfolding c_string
c_string-IsText [] h = refl
c_string-IsText (c ∷ s) h =
    let e : (c == 0) ≡ false = ground (arith, h.0) in rw (e, c_string-IsText s h.1) refl

-- What was received, behind `save`.
abbrev pub received : List ℕ → List (List ℕ) → List ℕ
received save [] = save
received save (b ∷ bs) = received (save ++ b) bs

length-received : (save : List ℕ) (bs : List (List ℕ)) → length save ≤ length (received save bs)
length-received save [] = omega arith
length-received save (b ∷ bs) =
    let h = length-received (save ++ b) bs in let e = length-append save b in omega arith

abbrev pub reaction_of : Outcome Handling → Outcome Reaction
reaction_of h = h >>= λ r. returns r.reaction

reaction_of-bind :
    (o : Outcome (Option AnyRequest)) (f g : Option AnyRequest → Outcome Handling)
    → ((r : Option AnyRequest) → reaction_of (f r) ≡ reaction_of (g r))
    → reaction_of (o >>= f) ≡ reaction_of (o >>= g)
reaction_of-bind (returns r) f g h = h r
reaction_of-bind throws f g h = refl
reaction_of-bind fault f g h = refl
reaction_of-bind out_of_fuel f g h = refl

module _ (read_double : List ℕ → Option ℕ) (stoi : List ℕ → Option ℤ) (fuel : ℕ) where
  -- Calls of `handle_read`, the last one with `last`.
  unfoldable pub handle_reads : List ℕ → List (List ℕ) → List ℕ → Outcome Handling
  handle_reads save [] last = handle_read read_double stoi fuel save (some last)
  handle_reads save (b ∷ bs) last = do
    h ← handle_read read_double stoi fuel save (some b)
    handle_reads h.save_buffer bs last

  -- A request whose body is not there yet.
  abbrev pub IsPending : List ℕ → Type 0
  IsPending s =
      (r : AnyRequest) × (create_new_http_request read_double fuel s ≡ returns (some r))
      × (any_is_valid_format stoi r ≡ some false)

  abbrev pub ArePending : List ℕ → List (List ℕ) → Type 0
  ArePending save [] = Unit
  ArePending save (b ∷ bs) = IsText b × IsPending (save ++ b) × ArePending (save ++ b) bs

  check_format-reaction :
      (save save' b b' : List ℕ) (r : AnyRequest) (v : Option Bool)
      → reaction_of (check_format read_double stoi fuel save b r v)
        ≡ reaction_of (check_format read_double stoi fuel save' b' r v)
  unfolding check_format
  check_format-reaction save save' b b' r none = refl
  check_format-reaction save save' b b' r (some false) = refl
  check_format-reaction save save' b b' r (some true) = refl

  check_request-reaction :
      (save save' b b' : List ℕ) (r : Option AnyRequest)
      → reaction_of (check_request read_double stoi fuel save b r)
        ≡ reaction_of (check_request read_double stoi fuel save' b' r)
  unfolding check_request
  check_request-reaction save save' b b' none = refl
  check_request-reaction save save' b b' (some r) =
      check_format-reaction save save' b b' r (any_is_valid_format stoi r)

  handle_message-append :
      (save b : List ℕ)
      → IsText save
      → IsText b
      → reaction_of (handle_message read_double stoi fuel save b)
        ≡ reaction_of (handle_message read_double stoi fuel [] (save ++ b))
  unfolding handle_message
  handle_message-append save b hs hb =
      let whole = c_string-IsText (save ++ b) (IsText-append save b hs hb) in
      rw (c_string-IsText b hb, whole, whole)
        (reaction_of-bind (create_new_http_request read_double fuel (save ++ b)) _ _
          (check_request-reaction save [] b (save ++ b)))

  handle_read-IsPending :
      (save b : List ℕ)
      → IsText save
      → IsText b
      → length b < buffer_size
      → IsPending (save ++ b)
      → handle_read read_double stoi fuel save (some b)
        ≡ returns (record { save_buffer = save ++ b; reaction = waits })
  unfolding handle_read handle_message check_request check_format
  handle_read-IsPending save b hs hb short (r, made, invalid) =
      let whole = c_string-IsText (save ++ b) (IsText-append save b hs hb) in
      rw (lt→ltb (length b) buffer_size short, c_string-IsText b hb, whole, made, invalid)
        (ap (λ t. returns (record { save_buffer = save ++ t; reaction = waits }))
          (c_string-IsText b hb))

  -- A message that comes in several reads, each piece before the last making a request whose body is not there
  -- yet, ends in the same reaction as when it comes in one read: it is executed, refused or kept
  -- waiting alike. The message has no zero byte and fits into the buffer, and it may start with what an earlier
  -- read saved.
  pub handle_reads-received :
      (save : List ℕ) (bs : List (List ℕ)) (last : List ℕ)
      → IsText save
      → IsText last
      → ArePending save bs
      → length (received save bs ++ last) < buffer_size
      → reaction_of (handle_reads save bs last)
        ≡ reaction_of (handle_read read_double stoi fuel [] (some (received save bs ++ last)))
  unfolding handle_reads
  handle_reads-received save [] last hs hl pending short =
      let e = length-append save last in
      let fits : length last < buffer_size = omega arith in
      unfold handle_read in
      rw (lt→ltb (length last) buffer_size fits, lt→ltb (length (save ++ last)) buffer_size short)
        (handle_message-append save last hs hl)
  handle_reads-received save (b ∷ bs) last hs hl (text, pending, more) short =
      let e = length-append save b in
      let e' = length-append (received (save ++ b) bs) last in
      let m = length-received (save ++ b) bs in
      let fits : length b < buffer_size = omega arith in
      rw (handle_read-IsPending save b hs text fits pending)
        (handle_reads-received (save ++ b) bs last (IsText-append save b hs text) hl more short)
