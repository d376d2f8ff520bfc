-- ===== src/Adapter/Response/Laws.antt =====
-- Proofs about mt5_adapter/metatrader_retcodes.py: what a response has to say to count as done.
use mt5_mcp_trading_framewor.Common.{
  ==_iff, ◌≡◌, refl, ap, ◌∙◌, ◌≤◌, false, true, Option, none, some, String, arith, Bool-cases, inl,
  inr, ltb, length,
}
use mt5_mcp_trading_framewor.Common.Int.{ℤ, pos, negsuc, eqb_ℤ}
use mt5_mcp_trading_framewor.Common.Outcome.{ok, >>=-eq-ok}
use mt5_mcp_trading_framewor.Adapter.Library.{
  Json, Fields, Items, item, end, Library, object, find_field, int_of, null, boolean, integer,
  number, text, array, dict_of,
}
use mt5_mcp_trading_framewor.Adapter.Response.{
  response_of_parsed, response_of_fields, TradeResponse, order_send_result_fields, done,
  count_items, zip_fields, with_retcode, response_of_data, message_of, parse_trade_response,
}

value_of : {A : Type 0} {a b : A} → ok a ≡ ok b → a ≡ b
value_of h = cc

code_10009 : (code : ℤ) → eqb_ℤ code (pos 10009) ≡ true → code ≡ pos 10009
code_10009 (pos n) h = ap pos (ground (arith, ==_iff n 10009))
code_10009 (negsuc n) h = absurd (ground (arith, h))

-- Only an object reads as a dictionary.
pub dict_of-object :
    {F : Type 0} (json : Json F) {d : Fields F} → dict_of json ≡ ok d → json ≡ object d
dict_of-object null h = cc
dict_of-object (boolean b) h = cc
dict_of-object (integer n) h = cc
dict_of-object (number x) h = cc
dict_of-object (text t) h = cc
dict_of-object (array items) h = cc
dict_of-object (object d) h = ap object (value_of h)

module _ {F : Type 0} (lib : Library F) where
  -- Two replies whose objects agree in `data` and in `message` are the same response: the tool's own
  -- `error` or `success`, and any other field, makes no difference.
  pub parse_trade_response_fields :
      (raw raw' : String) (d d' : Fields F)
      → lib.json_loads raw ≡ ok (object d)
      → lib.json_loads raw' ≡ ok (object d')
      → find_field "data" d ≡ find_field "data" d'
      → find_field "message" d ≡ find_field "message" d'
      → parse_trade_response lib raw ≡ parse_trade_response lib raw'
  unfolding parse_trade_response
  parse_trade_response_fields raw raw' d d' h h' data' message = rw (h, h', data', message) refl

  -- what stands for the retcode in the `data` of a reply: the field of that name of an object, or the
  -- first of at least eleven items of a list
  abbrev pub CarriesCode : Json F → Json F → Type 0
  CarriesCode (object d) v = find_field "retcode" d ≡ some v
  CarriesCode (array (item w rest)) v = (w ≡ v) × (10 ≤ count_items rest)
  CarriesCode _ v = ⊥

  abbrev pub IsDoneCode : Json F → Type 0
  IsDoneCode v = (code : ℤ) × (int_of lib v ≡ ok code) × (code ≡ pos 10009)

  -- the reply is an object whose `data` carries a retcode that reads as 10009
  abbrev pub IsExecuted : String → Type 0
  IsExecuted raw =
      (fields : Fields F) × (data' : Json F) × (v : Json F) × (lib.json_loads raw
        ≡ ok (object fields))
      × (find_field "data" fields ≡ some data')
      × CarriesCode data' v
      × IsDoneCode v

  with_retcode-done :
      (d : Fields F) (message : String) (o : Option (Json F)) {response : TradeResponse F}
      → with_retcode lib d message o ≡ ok response
      → done response ≡ true
      → (v : Json F) × (o ≡ some v) × IsDoneCode v
  unfolding done
  with_retcode-done d message none h succeeded = cc
  with_retcode-done d message (some v) {response} h succeeded =
      let (code, read, made) =
        >>=-eq-ok (int_of lib v)
          (λ code. ok (record { retcode = some code; raw_data = some d; tool_message = message }))
          {result = response} h in
      (v, refl, (code, read, code_10009 code (ground (arith, made, succeeded))))

  -- the data that can make a response done, and its retcode
  Carried : Option (Json F) → Type 0
  Carried found =
      (data' : Json F) × (v : Json F) × (found ≡ some data') × CarriesCode data' v × IsDoneCode v

  items-done :
      (items : Items F) (message : String) {response : TradeResponse F}
      → ltb (count_items items) (length order_send_result_fields) ≡ false
      → response_of_data lib (some (array items)) message ≡ ok response
      → done response ≡ true
      → Carried (some (array items))
  unfolding Carried
  items-done end message long h succeeded = cc
  items-done (item w rest) message long h succeeded =
      let d = zip_fields order_send_result_fields (item w rest) in
      let (v, at, executed) =
        with_retcode-done d message (find_field "retcode" d) (rw long at h) succeeded in
      (array (item w rest), v, refl, (cc at, ground (arith, long)), executed)

  response_of_data-done :
      (o : Option (Json F)) (message : String) {response : TradeResponse F}
      → response_of_data lib o message ≡ ok response
      → done response ≡ true
      → Carried o
  unfolding done Carried
  response_of_data-done none message h succeeded = absurd (ground (arith, h, succeeded))
  response_of_data-done (some null) message h succeeded = absurd (ground (arith, h, succeeded))
  response_of_data-done (some (object d)) message h succeeded =
      let (v, at, executed) = with_retcode-done d message (find_field "retcode" d) h succeeded in
      (object d, v, refl, at, executed)
  response_of_data-done (some (array items)) message h succeeded =
      elim (Bool-cases (ltb (count_items items) (length order_send_result_fields))) [
        | inl short ↦ absurd (ground (arith, short, h))
        | inr long ↦ items-done items message long h succeeded
      ]
  response_of_data-done (some (boolean b)) message h succeeded = cc
  response_of_data-done (some (integer n)) message h succeeded = cc
  response_of_data-done (some (number x)) message h succeeded = cc
  response_of_data-done (some (text t)) message h succeeded = cc

  -- A response counts as done only if the reply is an object whose field `data` carries a retcode that
  -- reads as 10009: as the field of that name of an object, or in the first place of a list of at least
  -- eleven items. Without `data` it is never done.
  pub parse_trade_response-done :
      (raw : String) {response : TradeResponse F}
      → parse_trade_response lib raw ≡ ok response
      → done response ≡ true
      → IsExecuted raw
  unfolding parse_trade_response Carried
  parse_trade_response-done raw {response} h succeeded =
      let (parsed, e1, h1) =
        >>=-eq-ok (lib.json_loads raw) (response_of_parsed lib) {result = response} h in
      let (fields, e2, h2) =
        >>=-eq-ok (dict_of parsed) (response_of_fields lib) {result = response} h1 in
      let (data', v, found, carries, is_code) =
        response_of_data-done (find_field "data" fields)
          (message_of lib (find_field "message" fields)) h2 succeeded in
      (fields, data', v, e1 ∙ ap ok (dict_of-object parsed e2), found, carries, is_code)
