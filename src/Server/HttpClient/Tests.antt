-- ===== src/Server/HttpClient/Tests.antt =====
-- A facilitator that fails with the status 503 and then answers, and the theorems there.
use x402b.Prelude.{ℕ, ◌≤◌, List, [], ◌∷◌, ◌++◌, true, false, ◌≡◌, refl, arith}
use x402b.Json.{Json, Fields}
use x402b.Effects.{returned}
use x402b.Facilitator.Verify.Samples.{settling}
use x402b.Server.HttpClient.{
  Transport, FetchRequest, FetchReply, response, CreateFacilitatorClientOptions, post_settle,
  is_verify_result, post,
}
use x402b.Server.HttpClient.Attempts.{Tried, post-Tried}
use x402b.Server.HttpClient.Guards.{IsSettleAnswer, post_settle-IsSettleAnswer}
use x402b.Server.HttpClient.Requests.{copies, RequestLog, settle_request, post_settle-log}

-- The world is the list of the requests made; the first one fails.
abbrev reply : List FetchRequest → FetchReply
reply [] = response false 503 (returned "")
reply (q ∷ qs) = response true 200 (returned "settled")

abbrev body : Json
body = Json.obj (
    Fields.field "ok" (Json.bool true) (
      Fields.field "exchangeId" (Json.str "7") (Fields.field "txHash" (Json.str "0x1") Fields.end)))

abbrev transport : Transport (List FetchRequest)
transport = record {
  fetch = λ q w. (reply w, w ++ (q ∷ []));
  sleep = λ ms w. w;
  idempotency_key = λ w. ("key", w);
  parse = λ text. returned body;
  stringify_input = λ input. "{}";
  stringify_action = λ input. "{}";
  to_text = λ n. "";
}

abbrev options : CreateFacilitatorClientOptions
options = record {
  url = "https://facilitator/";
  headers = [];
  timeout_ms = 30000;
  retry = record { attempts = 3; backoff_ms = 200 };
}

logs : RequestLog transport (λ w. w)
logs = record {
  fetch_logged = λ q w. refl;
  sleep_unlogged = λ ms w. refl;
  key_unlogged = λ w. refl;
}

abbrev sent : FetchRequest
sent = settle_request transport options (settling 1300) "key"

settles : post_settle transport options (settling 1300) [] ≡ (returned body, sent ∷ sent ∷ [])
unfolding post_settle
settles = refl

post-Tried_example :
    Tried transport options "/verify" "{}" is_verify_result [] 3 0 []
      (post transport options "/verify" "{}" is_verify_result [] [])
post-Tried_example =
    post-Tried transport options "/verify" "{}" is_verify_result [] [] (omega arith)

post_settle-log_example :
    (n : ℕ) × (1 ≤ n)
    × (n ≤ 3)
    × ((post_settle transport options (settling 1300) []).1 ≡ copies n sent)
post_settle-log_example =
    post_settle-log transport options (λ w. w) logs (settling 1300) [] (omega arith)

post_settle-IsSettleAnswer_example : IsSettleAnswer body
post_settle-IsSettleAnswer_example =
    post_settle-IsSettleAnswer transport options (settling 1300) [] (sent ∷ sent ∷ []) body
      (omega arith) settles
