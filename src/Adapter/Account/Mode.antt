-- ===== src/Adapter/Account/Mode.antt =====
-- Proofs about `get_account_state` of mt5_adapter/mcp_account.py: what makes an account a DEMO account.
use mt5_mcp_trading_framewor.Common.{
  ◌≡◌, refl, ap, ◌∙◌, Bool, true, false, if◌then◌else◌, Option, none, some, [], String, Text, codes,
  text_eq, text_eq-eq,
}
use mt5_mcp_trading_framewor.Common.Action.{lift, bind_returned}
use mt5_mcp_trading_framewor.Common.Outcome.{Outcome, ok, raised, ◌>>=◌, >>=-eq-ok}
use mt5_mcp_trading_framewor.Domain.{AccountState, TradeMode, demo, contest, real}
use mt5_mcp_trading_framewor.Mcp.Client.{McpClient, call_tool}
use mt5_mcp_trading_framewor.Adapter.Library.{Library, Json, Fields, object, find_field, dict_of}
use mt5_mcp_trading_framewor.Adapter.Response.Laws.{dict_of-object}
use mt5_mcp_trading_framewor.Adapter.Account.{
  normal_word, reported_word, mode_of_word, float_field, account_of_fields, read_account,
  get_account_state,
}

mode_demo :
    (is_demo is_contest : Bool)
    → (if is_demo then demo else if is_contest then contest else real) ≡ demo
    → is_demo ≡ true
mode_demo true is_contest h = refl
mode_demo false true h = cc
mode_demo false false h = cc

value_of : {A : Type 0} {a b : A} → ok a ≡ ok b → a ≡ b
value_of h = cc

mode_of_word-demo : (word : Text) → mode_of_word word ≡ demo → word ≡ codes "DEMO"
unfolding mode_of_word
mode_of_word-demo word h =
    text_eq-eq word (codes "DEMO")
      (mode_demo (text_eq word (codes "DEMO")) (text_eq word (codes "CONTEST")) h)

module _ {F : Type 0} where
  mode_kept :
      (mode : TradeMode) (balance equity free_margin : Outcome F) {state : AccountState F}
      → (balance >>= λ a. equity >>= λ b. free_margin >>= λ c. ok (record {
        balance = a;
        equity = b;
        margin_free = c;
        trade_mode = mode;
        login = none;
        server = none;
      }))
        ≡ ok state
      → mode ≡ state.trade_mode
  mode_kept mode (raised e) y z h = cc
  mode_kept mode (ok x) (raised e) z h = cc
  mode_kept mode (ok x) (ok y) (raised e) h = cc
  mode_kept mode (ok x) (ok y) (ok z) h = ap (λ state. state.trade_mode) (value_of h)

module _ {F : Type 0} (lib : Library F) where
  account_of_fields_mode :
      (d : Fields F) {state : AccountState F}
      → account_of_fields lib d ≡ ok state
      → mode_of_word (reported_word lib (find_field "account_type" d)) ≡ state.trade_mode
  unfolding account_of_fields
  account_of_fields_mode d h =
      mode_kept (mode_of_word (reported_word lib (find_field "account_type" d)))
        (float_field lib "balance" d) (float_field lib "equity" d) (float_field lib "free_margin" d)
        h

  reported_word-demo :
      (found : Option (Json F))
      → reported_word lib found ≡ codes "DEMO"
      → (v : Json F) × (found ≡ some v) × (normal_word (lib.str v) ≡ codes "DEMO")
  reported_word-demo none h = cc
  reported_word-demo (some v) h = (v, refl, h)

  module _ {W : Type 0} (client : McpClient W F) where
    -- An account is read as a DEMO account only if the server's reply is an object whose account_type,
    -- stripped and in upper case, is the word DEMO.
    pub get_account_state-demo :
        (w : W) {state : AccountState F}
        → (get_account_state lib client w).0 ≡ ok state
        → state.trade_mode ≡ demo
        → (raw : String) × (d : Fields F) × (v : Json F) × ((call_tool client "get_account_info" []
              w).0
            ≡ ok raw)
          × (lib.json_loads raw ≡ ok (object d))
          × (find_field "account_type" d ≡ some v)
          × (normal_word (lib.str v) ≡ codes "DEMO")
    unfolding get_account_state read_account
    get_account_state-demo w h is_demo =
        let (raw, replied, h1) =
          bind_returned (call_tool client "get_account_info" [])
            (λ raw. lift (read_account lib raw)) w h in
        let (d, parsed, h2) =
          >>=-eq-ok (lib.json_loads raw >>= dict_of) (account_of_fields lib) h1 in
        let (json, loaded, is_dict) = >>=-eq-ok (lib.json_loads raw) dict_of parsed in
        let word =
          mode_of_word-demo (reported_word lib (find_field "account_type" d))
            (account_of_fields_mode d h2 ∙ is_demo) in
        let (v, found, is_word) = reported_word-demo (find_field "account_type" d) word in
        (raw, d, v, replied, loaded ∙ ap ok (dict_of-object json is_dict), found, is_word)
