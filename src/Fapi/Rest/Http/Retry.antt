-- ===== src/Fapi/Rest/Http/Retry.antt =====
-- What a request leaves behind, over every course of the network.
use binapi.Prelude.{
  ℕ, ◌+◌, ◌≤◌, ◌≡◌, ◌↔◌, ◌⊎◌, inl, inr, refl, Bool, true, false, ◌&&◌, List, [], ◌∷◌, arith,
}
use binapi.Fapi.Rest.Http.{
  Error, Result, success, failure, HttpResponse, HttpRequest, Exchange, answered, write_failed,
  read_failed, Connect, connected, refused, Action, writes, connects, disconnects, HttpClient,
  async_request, disconnect, async_send_receive, reconnect, send_again, send_first, send_if,
}

-- How often a request was written whole.
unfoldable pub writes_in : List Action → ℕ
writes_in [] = 0
writes_in (writes req ∷ actions) = 1 + writes_in actions
writes_in (connects ∷ actions) = writes_in actions
writes_in (disconnects ∷ actions) = writes_in actions

-- A response to the request, which was just written and is the answer of one of the exchanges.
pub record Answer (req : HttpRequest) (first second : Exchange)
    (t : HttpClient × Result HttpResponse) : Type 0 where
  pub response : HttpResponse
  pub earlier : List Action
  pub is_result : t.1 ≡ success response
  pub stays_connected : t.0.is_connected ≡ true
  pub was_written : t.0.actions ≡ writes req ∷ earlier
  pub was_answered : (first ≡ answered response) ⊎ (second ≡ answered response)

-- An error, with the connection given up.
pub record NoAnswer (t : HttpClient × Result HttpResponse) : Type 0 where
  pub error : Error
  pub is_result : t.1 ≡ failure error
  pub is_disconnected : t.0.is_connected ≡ false

again_lem :
    (req : HttpRequest) (first second : Exchange) (s : HttpClient)
    → s.is_connected ≡ true
    → (NoAnswer (send_again req second s) ⊎ Answer req first second (send_again req second s))
      × (writes_in (send_again req second s).0.actions ≤ 1 + writes_in s.actions)
unfolding writes_in
again_lem req first (answered r) s h = (
  inr (record {
    response = r;
    earlier = s.actions;
    is_result = refl;
    stays_connected = h;
    was_written = refl;
    was_answered = inr refl;
  }),
  omega arith,
)
again_lem req first (write_failed e) s h =
    (inl (record { error = _; is_result = refl; is_disconnected = refl }), omega arith)
again_lem req first (read_failed e) s h =
    (inl (record { error = _; is_result = refl; is_disconnected = refl }), omega arith)

reconnect_lem :
    (req : HttpRequest) (first second : Exchange) (link : Connect) (s : HttpClient)
    → (NoAnswer (reconnect req link second s)
        ⊎ Answer req first second (reconnect req link second s))
      × (writes_in (reconnect req link second s).0.actions ≤ 1 + writes_in s.actions)
unfolding writes_in
reconnect_lem req first second connected s =
    again_lem req first second (record { is_connected = true; actions = connects ∷ s.actions }) refl
reconnect_lem req first second (refused e) s =
    (inl (record { error = _; is_result = refl; is_disconnected = refl }), omega arith)

first_lem :
    (req : HttpRequest) (first second : Exchange) (link : Connect) (s : HttpClient)
    → s.is_connected ≡ true
    → (NoAnswer (send_first req first link second s)
        ⊎ Answer req first second (send_first req first link second s))
      × (writes_in (send_first req first link second s).0.actions ≤ 2 + writes_in s.actions)
unfolding writes_in
first_lem req (answered r) second link s h = (
  inr (record {
    response = r;
    earlier = s.actions;
    is_result = refl;
    stays_connected = h;
    was_written = refl;
    was_answered = inl refl;
  }),
  omega arith,
)
first_lem req (write_failed e) second link s h =
    let lem = reconnect_lem req (write_failed e) second link (disconnect s) in
    (lem.0, omega (arith, lem.1))
first_lem req (read_failed e) second link s h =
    let lem =
      reconnect_lem req (read_failed e) second link
        (disconnect (async_send_receive req (read_failed e) s)) in
    (lem.0, omega (arith, lem.1))

if_lem :
    (b : Bool) (req : HttpRequest) (first second : Exchange) (link : Connect) (s : HttpClient)
    → s.is_connected ≡ b
    → (NoAnswer (send_if b req first link second s)
        ⊎ Answer req first second (send_if b req first link second s))
      × (writes_in (send_if b req first link second s).0.actions ≤ 2 + writes_in s.actions)
if_lem true req first second link s h = first_lem req first second link s h
if_lem false req first second link s h =
    (inl (record { error = _; is_result = refl; is_disconnected = h }), omega arith)

-- However the exchanges and the connection end, async_request writes the request whole at most
-- twice, and gives either an error, with the client not connected, or the answer of an exchange,
-- with the client connected and the request written last.
pub async_request_lem :
    (req : HttpRequest) (first second : Exchange) (link : Connect) (s : HttpClient)
    → (NoAnswer (async_request req first link second s)
        ⊎ Answer req first second (async_request req first link second s))
      × (writes_in (async_request req first link second s).0.actions ≤ 2 + writes_in s.actions)
unfolding async_request
async_request_lem req first second link s = if_lem s.is_connected req first second link s refl

-- How an exchange ended: with its request written and no response, with its request written.
abbrev pub is_read_failed : Exchange → Bool
is_read_failed (answered r) = false
is_read_failed (write_failed e) = false
is_read_failed (read_failed e) = true

abbrev pub is_written : Exchange → Bool
is_written (answered r) = true
is_written (write_failed e) = false
is_written (read_failed e) = true

abbrev pub is_reached : Connect → Bool
is_reached connected = true
is_reached (refused e) = false

-- A number of writes is two more exactly if a test holds.
abbrev IsTwoMore : ℕ → ℕ → Bool → Type 0
IsTwoMore n m b = (m ≡ 2 + n) ↔ (b ≡ true)

two_more : (n m : ℕ) → m ≡ 2 + n → IsTwoMore n m true
two_more n m h = (λ e. refl, λ e. h)

fewer : (n m : ℕ) → m ≤ 1 + n → IsTwoMore n m false
fewer n m h = (λ e. absurd (omega arith), λ e. absurd (ground arith))

count_lem :
    (b : Bool) (req : HttpRequest) (first second : Exchange) (link : Connect) (s : HttpClient)
    → IsTwoMore
        (writes_in s.actions)
        (writes_in (send_if b req first link second s).0.actions)
        (b && is_read_failed first && is_reached link && is_written second)
unfolding writes_in
count_lem false req first second link s = fewer _ _ (omega arith)
count_lem true req (answered r) second link s = fewer _ _ (omega arith)
count_lem true req (write_failed e) second (refused x) s = fewer _ _ (omega arith)
count_lem true req (write_failed e) (answered r) connected s = fewer _ _ (omega arith)
count_lem true req (write_failed e) (write_failed x) connected s = fewer _ _ (omega arith)
count_lem true req (write_failed e) (read_failed x) connected s = fewer _ _ (omega arith)
count_lem true req (read_failed e) second (refused x) s = fewer _ _ (omega arith)
count_lem true req (read_failed e) (answered r) connected s = two_more _ _ (omega arith)
count_lem true req (read_failed e) (write_failed x) connected s = fewer _ _ (omega arith)
count_lem true req (read_failed e) (read_failed x) connected s = two_more _ _ (omega arith)

-- For every request and however the exchanges and the connection end: async_request writes the
-- request whole twice exactly if the client is connected, the first exchange fails at the reading
-- of its response, the new connection is made, and the second exchange does not fail before its
-- request is written.
pub written_twice :
    (req : HttpRequest) (first second : Exchange) (link : Connect) (s : HttpClient)
    → (writes_in (async_request req first link second s).0.actions ≡ 2 + writes_in s.actions)
      ↔ ((s.is_connected && is_read_failed first && is_reached link && is_written second) ≡ true)
unfolding async_request
written_twice req first second link s = count_lem s.is_connected req first second link s
