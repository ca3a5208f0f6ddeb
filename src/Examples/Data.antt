-- ===== src/Examples/Data.antt =====
-- A store with one domain, one API key and two emails, and the environments around it.
use doevoe.Base.{
  ◌*◌, ℕ, Text, true, false, some, none, List, [], ◌∷◌, codes, text_eq, if◌then◌else◌,
}
use doevoe.Store.{
  Status, queued, sending, Email, Domain, ApiKey, Db, empty_db, Store, reliable, second,
}
use doevoe.Delivery.Message.{Formats, Unmarshaled, object}
use doevoe.Delivery.Worker.{Worker, returned}
use doevoe.Api.Requests.{Env, SendRequest, Request, Address, decoded}
use doevoe.Notify.{Notifier, permanent_failure}

abbrev pub a_time : ℕ
a_time = 100000 * second

abbrev pub an_address : Text
an_address = codes "news@shop.example"

abbrev pub row_of : ℕ → Status → Email
row_of id status = record {
  id = id;
  api_key_id = 1;
  domain_id = 1;
  from = an_address;
  to = codes "jan@mail.example";
  from_name = [];
  to_name = [];
  original_to = [];
  reply_to = [];
  subject = codes "Hello";
  body_html = [];
  body_text = codes "Hi";
  headers_json = codes "{}";
  status = status;
  attempts = 0;
  next_attempt_at = 5;
  last_error = [];
  idempotency_key = [];
  is_system = false;
  created_at = 5;
  sent_at = 0;
}

abbrev pub waiting_email : Email
waiting_email = row_of 1 queued

abbrev pub sending_email : Email
sending_email = row_of 2 sending

abbrev pub a_domain : Domain
a_domain = record {
  id = 1;
  name = codes "shop.example";
  dkim_selector = codes "s1";
  dkim_private_key = codes "pem";
  spf_verified = true;
  dkim_verified = true;
  dmarc_verified = true;
  last_checked_at = 5;
  created_at = 1;
}

abbrev pub a_key : ApiKey
a_key = record {
  id = 1;
  name = codes "shop";
  key_hash = codes "dk_1";
  domain_id = 1;
  revoked = false;
  last_used_at = 0;
  created_at = 1;
}

abbrev pub a_db : Db
a_db = record empty_db {
  emails = waiting_email ∷ sending_email ∷ [];
  domains = a_domain ∷ [];
  api_keys = a_key ∷ [];
}

abbrev pub a_store : Store
a_store = reliable a_db a_time

abbrev pub a_worker : Worker
a_worker = record {
  send = λ e d. returned (record {
    mx_host = codes "mx.mail.example";
    code = 250;
    response = codes "accepted";
    duration = second;
    error = none;
    tls = true;
  });
  batch_size = 0;
  on_permanent_failure = some permanent_failure;
}

-- The one custom header of the requests below, and a JSON that knows it and the empty object.
abbrev pub a_header : List (Text × Text)
a_header = (codes "X-Campaign", codes "spring") ∷ []

abbrev unmarshal_one : Text → Unmarshaled
unmarshal_one t = if text_eq t (codes "{}") then object [] else object a_header

abbrev pub formats : Formats
formats = record {
  address_string = λ name address. address;
  encode_word = λ s. s;
  format_date = λ at. codes "Mon, 02 Jan 2006 15:04:05 +0000";
  quote = λ s. s;
  marshal = λ hs. codes "{one}";
  unmarshal = unmarshal_one;
}

abbrev pub an_env : Env
an_env = record {
  formats = formats;
  parse_address = λ s. some (record { name = []; address = s });
  hash_api_key = λ token. token;
}

abbrev pub from_address : Address
from_address = record { name = []; address = an_address }

abbrev pub to_address : Address
to_address = record { name = []; address = codes "piet@mail.example" }

abbrev pub send_with : Text → SendRequest
send_with reply_to = record {
  from = an_address;
  to = codes "piet@mail.example";
  subject = codes "Hello";
  html = [];
  text = codes "Hi";
  reply_to = reply_to;
  headers = a_header;
}

abbrev pub a_request : Request
a_request = record {
  authorization = codes "Bearer dk_1";
  idempotency_key = codes "k1";
  body = decoded (send_with (codes "help@shop.example"));
}

abbrev pub a_notifier : Notifier
a_notifier = record {
  admin_email = codes "admin@shop.example";
  system_from = codes "doevoe@shop.example";
  base_url = codes "https://doevoe.example";
  printing = record {
    decimal = λ n. codes "1";
    quote = λ s. s;
    show_time = λ at. codes "now";
    read_time = λ s. 0;
  };
}
