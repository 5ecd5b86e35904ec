-- ===== src/Tests/Wire.antt =====
-- Messages on a stream, with stand-ins for the generated encodings.
use bep_rs.Prelude.{
  ℕ, ◌≡◌, refl, false, ◌++◌, some, List, [], ◌∷◌, codes, length, take, replicate, arith,
}
use bep_rs.Prelude.Int.{ℤ, pos, negsuc}
use bep_rs.Prelude.Outcome.{Outcome, ok, err}
use bep_rs.Connection.Items.{Message, Header}
use bep_rs.Connection.Framing.{Wire, hello_of, encode_message, read_message, send_hello}
use bep_rs.Connection.Framing.RoundTrip.{IsWritable, read_message-encode_message}
use bep_rs.Connection.Framing.Cut.{cut_off, read_message_cut}
use bep_rs.Connection.Reading.{
  ready, elapsed, answer_request, Session, Exit, dispatch, handle_reading,
}
use bep_rs.Connection.Reading.Delivery.{encode_all, handle_reading-encode_all}
use bep_rs.Tests.Database.{sql, before}
use bep_rs.Tests.Requests.{request, granted}

abbrev number : ℤ → ℕ
number (pos n) = n
number (negsuc n) = 0

abbrev decode_header : List ℕ → Outcome (List ℕ) Header
decode_header (t ∷ c ∷ []) = ok (record { type = pos t; compression = pos c })
decode_header _ = err []

abbrev pub wire : Wire
wire = record {
  hello = record { encode = λ h. h.device_name; decode = λ b. ok (hello_of b (pos 0)) };
  header = record {
    encode = λ h. number h.type ∷ number h.compression ∷ [];
    decode = decode_header;
  };
  cluster_config = record {
    encode = λ c. [];
    decode = λ b. ok (record { folders = []; secondary = false });
  };
  index = record {
    encode = λ i. i.folder;
    decode = λ b. ok (record { folder = b; files = []; last_sequence = pos 0 });
  };
  index_update = record {
    encode = λ i. i.folder;
    decode =
        λ b. ok (record { folder = b; files = []; last_sequence = pos 0; prev_sequence = pos 0 });
  };
  request = record { encode = λ r. r.name; decode = λ b. ok (record request { name = b }) };
  response = record { encode = λ r. r.bytes; decode = λ b. ok (record granted { bytes = b }) };
  ping = record { encode = λ p. []; decode = λ b. ok tt };
  close = record { encode = λ c. c.reason; decode = λ b. ok (record { reason = b }) };
  decompress_size_prepended = λ b. some b;
  early_eof = codes "early eof";
}

pub request-IsWritable : IsWritable wire (Message.request request)
request-IsWritable = (
  record { decoded_back = refl; fits = omega arith },
  record { decoded_back = refl; fits = omega arith },
)

close-IsWritable : IsWritable wire (Message.close (record { reason = codes "bye" }))
close-IsWritable = (
  record { decoded_back = refl; fits = omega arith },
  record { decoded_back = refl; fits = omega arith },
)

read_message-encode_message_example :
    read_message wire (encode_message wire (Message.request request) ++ 9 ∷ 9 ∷ [])
    ≡ ok (Message.request request, 9 ∷ 9 ∷ [])
read_message-encode_message_example =
    read_message-encode_message wire (Message.request request) (9 ∷ 9 ∷ []) request-IsWritable

eight_bytes : length (encode_message wire (Message.request request)) ≡ 9
unfolding encode_message
eight_bytes = refl

read_message_cut_example :
    read_message wire (take 5 (encode_message wire (Message.request request))) ≡ err (cut_off wire)
read_message_cut_example =
    read_message_cut wire (Message.request request) 5 request-IsWritable
      (omega (arith, eight_bytes))

abbrev session : Session sql
session = record { state = before; tasks = [] }

abbrev conversation : List Message
conversation = Message.request request ∷ Message.close (record { reason = codes "bye" }) ∷ []

handle_reading-encode_all_example :
    handle_reading sql wire
      (1 ∷ 2 ∷ 3 ∷ [])
      (replicate 2 ready ++ elapsed ∷ [])
      (send_hello wire (hello_of (codes "laptop") (pos 0)) ++ (encode_all wire conversation ++ []))
      session
    ≡ (ok Exit.returned, record session { tasks = answer_request request ∷ [] })
unfolding dispatch
handle_reading-encode_all_example =
    handle_reading-encode_all sql wire (1 ∷ 2 ∷ 3 ∷ []) (hello_of (codes "laptop") (pos 0))
      conversation (elapsed ∷ []) [] session refl (omega arith)
      (request-IsWritable, (close-IsWritable, tt))
