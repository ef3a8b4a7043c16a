-- ===== src/Redis/Server.antt =====
-- redis-server/src/Server.cpp: when a request is complete, and the state of a client's connection
-- between the rounds of the loop over the sockets; countSubstring of Utils.cpp.
pub mod Framing
pub mod Delivery
use cpp_experiments.Common.{
  ℕ, zero, suc, ◌+◌, ◌-◌, ◌*◌, ◌%◌, ◌^◌, Bool, true, false, ◌&&◌, ◌||◌, Option, none, some, List,
  [], ◌∷◌, ◌++◌, ltb, ◌==◌, if◌then◌else◌, length, take, drop, get_or,
}
use cpp_experiments.Common.Fault.{Run, ok, fault, ◌>>=◌}
use cpp_experiments.Common.Bytes.{Bytes, codes, crlf, find_crlf, ◌=ᵇ◌}
use cpp_experiments.Common.Decimal.{from_chars_size}

-- countSubstring(str, "\r\n") and countSubstring(str, "$")
unfoldable pub count_crlf : Bytes → ℕ
count_crlf [] = 0
count_crlf (c ∷ []) = 0
count_crlf (c ∷ d ∷ s) =
    let behind = suc (count_crlf s) in
    let further = count_crlf (d ∷ s) in if c == 13 && d == 10 then behind else further

unfoldable pub count_dollar : Bytes → ℕ
count_dollar [] = 0
count_dollar (c ∷ s) = let rest = count_dollar s in if c == b'$' then suc rest else rest

-- What readRequest makes of the text received so far.
pub data Verdict : Type 0 where
  complete incomplete invalid : Verdict

abbrev pub when : Bool → Verdict
when true = complete
when false = incomplete

-- A length that starts with a minus sign: only `minus_one` is a request.
unfoldable pub negative : Bytes → Bytes → Verdict
negative minus_one request =
    if ltb (length request) 5
    then incomplete
    else if request =ᵇ minus_one
    then complete
    else invalid

-- request.substr(1, lenTokEnd - 1)
abbrev pub length_text : ℕ → Bytes → Bytes
length_text line request = take (line - 1) (drop 1 request)

unfoldable pub bulk_of_length : ℕ → Bytes → Option ℕ → Verdict
bulk_of_length line request none = invalid
bulk_of_length line request (some n) = when (ltb ((line + 2 + n + 2) % 2 ^ 64) (length request))

unfoldable pub array_of_length : Bytes → Option ℕ → Verdict
array_of_length request none = invalid
array_of_length request (some n) =
    let expected = (2 * n + 1) % 2 ^ 64 in
    if ltb expected (count_crlf request) || ltb n (count_dollar request)
    then invalid
    else if ltb (count_crlf request) expected || ltb (count_dollar request) n
    then incomplete
    else complete

unfoldable pub bulk_request : Bytes → Option ℕ → Verdict
bulk_request request none = incomplete
bulk_request request (some line) =
    if get_or request 1 0 == b'-'
    then negative (codes "$-1\r\n") request
    else bulk_of_length line request (from_chars_size (length_text line request))

unfoldable pub array_request : Bytes → Option ℕ → Verdict
array_request request none = incomplete
array_request request (some line) =
    if get_or request 1 0 == b'-'
    then negative (codes "*-1\r\n") request
    else array_of_length request (from_chars_size (length_text line request))

unfoldable pub simple_request : Option ℕ → Verdict
simple_request none = incomplete
simple_request (some line) = complete

unfoldable pub judge : Bytes → Verdict
judge request =
    let ch = get_or request 0 0 in
    if ch == b'+' || ch == b'-' || ch == b':'
    then simple_request (find_crlf request)
    else if ch == b'$'
    then bulk_request request (find_crlf request)
    else if ch == b'*'
    then array_request request (find_crlf request)
    else invalid

abbrev pub receive_error : Bytes
receive_error = codes "-Error receiving data\r\n"

abbrev pub judged : Bytes → Verdict → Bool × Bytes
judged request complete = (true, request)
judged request incomplete = (false, request)
judged request invalid = (true, codes "-Invalid input data\r\n")

-- readRequest: `none` where recv fails or the client has gone.
unfoldable pub read_request : Option Bytes → Bytes → Bool × Bytes
read_request none request = (true, receive_error)
read_request (some received) request = judged (request ++ received) (judge (request ++ received))

pub data Events : Type 0 where
  pollin pollout : Events

-- The entry of socketInfo; its stack is never used.
pub record Client : Type 0 where
  pub events : Events
  pub text : Bytes
  pub curr_pos : ℕ

abbrev pub fresh_client : Client
fresh_client = record { events = pollin; text = []; curr_pos = 0 }

module _ {ℓ} {S : Type ℓ} (handle_request : S → Bytes → Run (Bytes × S)) where
  -- A complete request: the entry is erased after a failed recv, or waits for the answer's sending.
  unfoldable pub answer : Bytes → Bool → S → Run (Option Client × S)
  answer request true s = ok (none, s)
  answer request false s = handle_request s request >>= λ r.
      ok (some (record { events = pollout; text = r.0; curr_pos = length r.0 }), r.1)

  unfoldable pub after_read : Bool × Bytes → Client → S → Run (Option Client × S)
  after_read (false, request) c s =
      ok (some (record { events = pollin; text = request; curr_pos = c.curr_pos }), s)
  after_read (true, request) c s = answer request (request =ᵇ receive_error) s

  -- The branch of `run` for a client that is ready to be read.
  unfoldable pub on_readable : Option Bytes → Client → S → Run (Option Client × S)
  on_readable received c s = after_read (read_request received c.text) c s

-- sendResponse and the branch of `run` that calls it; the argument is what send returns, `none`
-- for its failure.
unfoldable pub on_writable : Option ℕ → Client → Client
on_writable none c = fresh_client
on_writable (some sent) c =
    if c.curr_pos - sent == 0
    then fresh_client
    else record { events = pollout; text = c.text; curr_pos = c.curr_pos - sent }
