-- ===== src/Stratum/Messages/Delivery.antt =====
-- About src/stratum/message.cpp: the requests, as a line buffer and the parser of messages give them
-- back at the other end of the stream.
use bitcoin_miner.Base.{
  ℕ, suc, ◌*◌, ◌^◌, ◌≤◌, ◌<◌, Bool, true, false, ◌&&◌, List, [], ◌∷◌, ◌++◌, map, ◌≡◌, refl, ap, ◌∙◌,
  arith, Text, codes, ℤ, magnitude, none, some, ◌==◌, length, length-append,
}
use bitcoin_miner.Base.Texts.{◌=t=◌}
use bitcoin_miner.Util.Json.{
  Members, null, array, object, find, Floats, lookup, has, as_string, as_int, is_empty,
}
use bitcoin_miner.Util.Json.Writer.{dump, dump_to}
use bitcoin_miner.Util.Json.Scan.{done}
use bitcoin_miner.Util.Json.Parser.{parse, max_depth}
use bitcoin_miner.Util.Json.Readable.{IsReadable, AreReadable, height, height_elements}
use bitcoin_miner.Util.Json.RoundTrip.{parse-dump}
use bitcoin_miner.Util.Json.Printable.{IsPrintable, dump-IsPrintable}
use bitcoin_miner.Stratum.Lines.{
  LineBuffer, split_line, append, strip_cr, drain_loop, drain, has_newline,
}
use bitcoin_miner.Stratum.Lines.Chunks.{drain_loop-none, drain_loop-line}
use bitcoin_miner.Stratum.Messages.{
  Message, no_error, read_members, parse_message, build_subscribe, build_authorize, build_submit,
}
use bitcoin_miner.Stratum.Messages.Requests.{
  strings, request, IsLine, build_subscribe-IsLine, build_authorize-IsLine, build_submit-IsLine,
}

-- A text without control characters is one line, and ends in no carriage return.
split_line-printable : (t : Text) → IsPrintable t → split_line (t ++ b'\n' ∷ []) ≡ some (t, [])
unfolding split_line
split_line-printable [] h = refl
split_line-printable (c ∷ cs) h =
    let other : (c == b'\n') ≡ false = ground (arith, h.0) in
    rw (other, split_line-printable cs h.1) refl

strip_cr-printable : (t : Text) → IsPrintable t → strip_cr t ≡ t
unfolding strip_cr
strip_cr-printable [] h = refl
strip_cr-printable (c ∷ []) h = ground (arith, h.0)
strip_cr-printable (c ∷ d ∷ cs) h = ap (◌∷◌ c) (strip_cr-printable (d ∷ cs) h.1)

abbrev pub no_bytes : LineBuffer
no_bytes = record { buffer = []; overflowed = false }

and-false : (b : Bool) → (b && false) ≡ false
and-false true = refl
and-false false = refl

append-whole_line :
    (xs : Text)
    → has_newline xs ≡ true
    → append no_bytes xs ≡ record { buffer = xs; overflowed = false }
unfolding append
append-whole_line xs h = rw (h, and-false _) refl

has_newline-line : (t : Text) → IsPrintable t → has_newline (t ++ b'\n' ∷ []) ≡ true
has_newline-line t h = ap (λ o. elim o [ none ↦ false | some s ↦ true ]) (split_line-printable t h)

pub drain-line :
    (t : Text) → IsPrintable t → drain (append no_bytes (t ++ b'\n' ∷ [])) ≡ (t ∷ [], no_bytes)
unfolding drain split_line
drain-line t h =
    let line = t ++ b'\n' ∷ [] in
    let full : LineBuffer = record { buffer = line; overflowed = false } in
    let fuel : length line ≡ suc (length t) = omega (arith, length-append t (b'\n' ∷ [])) in
    ap drain (append-whole_line line (has_newline-line t h))
    ∙ ap (λ n. drain_loop n full) fuel
    ∙ drain_loop-line (length t) full (split_line-printable t h)
    ∙ ap (λ r. (strip_cr t ∷ r.0, r.1)) (drain_loop-none (length t) no_bytes refl)
    ∙ ap (λ u. (u ∷ [], no_bytes)) (strip_cr-printable t h)

module _ (floats : Floats) where
  open floats use {Double, of_int, whole_cast}

  strings-AreReadable : (ss : List Text) → AreReadable floats (strings ss)
  unfolding IsReadable
  strings-AreReadable [] = tt
  strings-AreReadable (s ∷ ss) = (tt, strings-AreReadable ss)

  strings-low : (ss : List Text) → height_elements (strings {D = Double} ss) ≤ 1
  unfolding height
  strings-low [] = omega arith
  strings-low (s ∷ ss) = omega (arith, strings-low ss)

  request-IsReadable :
      (id : ℤ) (method : Text) (params : List Text)
      → magnitude id < 9 * 10 ^ 15
      → IsReadable floats (request floats id method params)
  unfolding IsReadable find ◌=t=◌
  request-IsReadable id method params small =
      (refl, (id, small, refl), (refl, tt, (refl, strings-AreReadable params, tt)))

  request-low :
      (id : ℤ) (method : Text) (params : List Text)
      → height (request floats id method params) ≤ max_depth
  unfolding height
  request-low id method params = omega (arith, strings-low params)

  -- What the request says.
  abbrev pub message_of : ℤ → Text → List Text → Message Double
  message_of id method params = record {
    valid = true;
    parse_error = no_error;
    has_id = true;
    id = id;
    method = method;
    params = array (strings params);
    result = null;
    error = null;
  }

  read_members-request :
      (id : ℤ) (m : ℕ) (ethod : Text) (params : List Text)
      → magnitude id < 9 * 10 ^ 15
      → read_members floats (request floats id (m ∷ ethod) params)
        ≡ message_of id (m ∷ ethod) params
  unfolding read_members find ◌=t=◌ lookup has as_string as_int
  read_members-request id m ethod params small = rw (whole_cast id small) refl

  -- The stream, cut into lines and parsed, gives the message and nothing more.
  abbrev pub IsDelivered : Text → ℤ → Text → List Text → Type 0
  IsDelivered sent id method params =
      (map (parse_message floats) (drain (append no_bytes sent)).0
        ≡ message_of id method params ∷ [])
      × ((drain (append no_bytes sent)).1 ≡ no_bytes)

  pub parse_message-members :
      (line : Text) (ms : Members Double)
      → is_empty line ≡ false
      → parse floats line ≡ done (object ms) []
      → parse_message floats line ≡ read_members floats (object ms)
  unfolding parse_message
  parse_message-members line ms e read = rw (e, read) refl

  parse_message-request :
      (id : ℤ) (m : ℕ) (ethod : Text) (params : List Text)
      → magnitude id < 9 * 10 ^ 15
      → parse_message floats (dump floats 0 (request floats id (m ∷ ethod) params))
        ≡ message_of id (m ∷ ethod) params
  unfolding dump dump_to
  parse_message-request id m ethod params small =
      let root = request floats id (m ∷ ethod) params in
      let read =
        parse-dump floats root 0 (request-IsReadable id (m ∷ ethod) params small)
          (request-low id (m ∷ ethod) params) in
      parse_message-members _ _ refl read ∙ read_members-request id m ethod params small

  line-IsDelivered :
      (sent : Text) (id : ℤ) (m : ℕ) (ethod : Text) (params : List Text)
      → magnitude id < 9 * 10 ^ 15
      → IsLine floats sent id (m ∷ ethod) params
      → IsDelivered sent id (m ∷ ethod) params
  line-IsDelivered sent id m ethod params small e =
      let text = dump floats 0 (request floats id (m ∷ ethod) params) in
      let drained =
        ap (λ t. drain (append no_bytes t)) e
        ∙ drain-line text
            (dump-IsPrintable floats _ (request-IsReadable id (m ∷ ethod) params small)) in
      (
        ap (λ r. map (parse_message floats) r.0) drained
            ∙ ap (λ x. x ∷ []) (parse_message-request id m ethod params small),
        ap (λ r. r.1) drained,
      )

  -- For an id of a magnitude below 9 * 10 ^ 15 and any texts, what each of build_subscribe,
  -- build_authorize and build_submit writes, received by an empty line buffer, cut into lines and
  -- parsed, gives exactly one message, with that id, the method and the texts as parameters, and
  -- leaves the buffer empty.
  pub requests-IsDelivered :
      (id : ℤ) (agent username password job extranonce2 n_time nonce : Text)
      → magnitude id < 9 * 10 ^ 15
      → IsDelivered (build_subscribe id agent) id (codes "mining.subscribe") (agent ∷ [])
        × IsDelivered
            (build_authorize id username password)
            id
            (codes "mining.authorize")
            (username ∷ password ∷ [])
        × IsDelivered
            (build_submit id username job extranonce2 n_time nonce)
            id
            (codes "mining.submit")
            (username ∷ job ∷ extranonce2 ∷ n_time ∷ nonce ∷ [])
  requests-IsDelivered id agent username password job extranonce2 n_time nonce small = (
    line-IsDelivered _ id _ _ (agent ∷ []) small (build_subscribe-IsLine floats id agent small),
    line-IsDelivered _ id _ _ (username ∷ password ∷ []) small
        (build_authorize-IsLine floats id username password small),
    line-IsDelivered _ id _ _ (username ∷ job ∷ extranonce2 ∷ n_time ∷ nonce ∷ []) small
        (build_submit-IsLine floats id username job extranonce2 n_time nonce small),
  )
