-- ===== src/Broker/Tests.antt =====
-- The theorems on the broker's side at one small account.
use firstrade_platform.Prelude.{
  ◌⊎◌, ℕ, ◌+◌, ◌*◌, ◌-◌, ◌≡◌, refl, Bool, true, false, not, ◌&&◌, Option, none, some, List, [], ◌∷◌,
  Text, codes, strip, lstrip, ℤ, pos, cents_float, Cents-IsOrdered, ◌↔◌, inr, is_empty,
}
use firstrade_platform.Execution.Orders.{
  Side, Intent, shares, order_submission_accepted, order_submission_unknown,
}
use firstrade_platform.Execution.Submission.{order_of}
use firstrade_platform.Broker.Payload.{
  Json, text, number, mapping, listing, Members, no_member, member, no_item, item, Reading,
}
use firstrade_platform.Broker.Accounts.{Identifier, named, account_numbers, select_account}
use firstrade_platform.Broker.Accounts.Selected.{IsSelected, select_account-IsSelected}
use firstrade_platform.Broker.Order.{
  StockOrderRequest, PlaceOrder, Placement, placed, Client, call_of, place_stock_order,
}
use firstrade_platform.Broker.Order.Safe.{HasSafeAmount, IsPermitted, placed_order_is_safe}
use firstrade_platform.Broker.Adapters.{
  Adapters, build_portfolio_snapshot, live_order_accepted, live_order_rejected, report_of,
}
use firstrade_platform.Broker.Adapters.Statuses.{IsAcceptance, IsProvenRefusal, live_status_exactly}
use firstrade_platform.Broker.Adapters.Reconciled.{
  ReconciledSnapshot, build_reconciled_paper_portfolio_snapshot,
}
use firstrade_platform.Broker.Adapters.Reconciled.Complete.{
  IsReconciled, build_reconciled_paper_portfolio_snapshot_iff,
}
use firstrade_platform.Broker.Orders.{get_orders, get_order_status}
use firstrade_platform.Broker.Orders.Found.{IsStatusOf, get_order_status-IsStatusOf}
use firstrade_platform.Broker.Adapters.Cash.{IsCoveredIfBuilt, build_portfolio_snapshot-IsCovered}

abbrev dollars_of : ℕ → ℤ
dollars_of n = cents_float.of_ℕ n

abbrev live_client : Client
live_client = record { connected = true; live_trading_enabled = true }

abbrev limit_buy : StockOrderRequest ℤ
limit_buy = record {
  account = codes "12345678";
  symbol = codes "soxx";
  side = codes "buy";
  quantity = some (pos 2);
  notional_usd = none;
  price_type = codes "limit";
  duration = codes "day";
  limit_price = some (dollars_of 100);
  stop_price = none;
  max_notional_usd = some (dollars_of 500);
}

limit_buy-placed :
    place_stock_order live_client limit_buy false true ≡ placed (call_of limit_buy false)
unfolding place_stock_order firstrade_platform.Broker.Order.place_checked
    firstrade_platform.Broker.Order.validate_stock_order
    firstrade_platform.Broker.Order.first_refusal firstrade_platform.Broker.Order.shape_guards
    firstrade_platform.Prelude.upper strip firstrade_platform.Prelude.one_of
    firstrade_platform.Prelude.lower firstrade_platform.Broker.Order.live_guards
    firstrade_platform.Broker.Order.has_known_words
limit_buy-placed = refl

placed_order_is_safe_example :
    ((call_of limit_buy false).dry_run ≡ false)
    × (live_client.connected ≡ true)
    × HasSafeAmount limit_buy (call_of limit_buy false) none
    × IsPermitted false live_client true limit_buy (call_of limit_buy false)
placed_order_is_safe_example =
    placed_order_is_safe live_client limit_buy false true limit_buy-placed

-- reads digits only
abbrev digits_value : ℤ → Text → ℤ
digits_value n [] = n
digits_value (pos n) (c ∷ s) = digits_value (pos (n * 10 + (c - 48))) s
digits_value (ℤ.negsuc n) (c ∷ s) = digits_value (ℤ.negsuc n) s

abbrev whole_dollars : ℤ → ℤ
whole_dollars (pos n) = dollars_of n
whole_dollars (ℤ.negsuc n) = dollars_of 0

abbrev small_reading : Reading ℤ
small_reading = record {
  parse_float = λ s. some (whole_dollars (digits_value (pos 0) s));
  parse_int = λ s. some (digits_value (pos 0) s);
  repr = λ v. codes "[...]";
}

abbrev small_intent : Intent ℤ
small_intent = record {
  symbol = codes "SOXX";
  side = Side.buy;
  amount = shares 2 (dollars_of 100);
  max_notional_usd = none;
}

abbrev refusal : Members
refusal =
    member (codes "statusCode") (number (codes "400") true (some (pos 400)))
      (member (codes "refCode") (text (codes "1219")) no_member)

live_status_exactly_example :
    ((order_submission_accepted
          (order_of small_intent (report_of small_reading true small_intent refusal))
        ≡ true)
      ↔ IsAcceptance small_reading small_intent refusal)
    × ((order_submission_unknown
            (order_of small_intent (report_of small_reading true small_intent refusal))
          ≡ false)
        ↔ (IsAcceptance small_reading small_intent refusal
            ⊎ IsProvenRefusal small_reading small_intent refusal))
live_status_exactly_example = live_status_exactly small_reading small_intent refusal

abbrev cash_adapters : Adapters ℤ
cash_adapters = record {
  client = live_client;
  account = codes "12345678";
  strategy_symbols = [];
  live_orders = true;
  live_order_ack = true;
  max_order_notional_usd = none;
  cash_only_execution = true;
  place_order = λ call. none;
}

abbrev some_balances : Json
some_balances = mapping (
    member (codes "cash_balance") (text (codes "500"))
      (member (codes "buying_power") (text (codes "900")) no_member))

abbrev some_positions : Json
some_positions = listing (
    item
      (mapping (
        member (codes "symbol") (text (codes "soxx"))
          (member (codes "quantity") (text (codes "3")) no_member)))
      no_item)

build_portfolio_snapshot-IsCovered_example :
    IsCoveredIfBuilt Cents-IsOrdered
      (build_portfolio_snapshot small_reading cash_adapters some_balances some_positions)
build_portfolio_snapshot-IsCovered_example =
    build_portfolio_snapshot-IsCovered Cents-IsOrdered small_reading cash_adapters some_balances
      some_positions refl

abbrev two_accounts : List Identifier
two_accounts = named (codes " 11 ") ∷ named (codes "22") ∷ []

select_account-IsSelected_example :
    IsSelected
      (codes "11 ")
      (account_numbers two_accounts)
      (select_account (codes "11 ") two_accounts)
select_account-IsSelected_example = select_account-IsSelected (codes "11 ") two_accounts

abbrev valued_positions : Json
valued_positions = listing (
    item
      (mapping (
        member (codes "symbol") (text (codes "soxx")) (
          member (codes "quantity") (text (codes "3"))
            (member (codes "value") (text (codes "60")) no_member))))
      no_item)

abbrev valued_snapshot : ReconciledSnapshot ℤ
valued_snapshot = record {
  total_equity = dollars_of 560;
  cash_balance = dollars_of 500;
  buying_power = dollars_of 500;
  positions =
      record {
        symbol = codes "SOXX";
        quantity = dollars_of 3;
        market_value = dollars_of 60;
        average_cost = none;
      }
      ∷ [];
}

build_reconciled_paper_portfolio_snapshot_iff_example :
    (build_reconciled_paper_portfolio_snapshot small_reading some_balances valued_positions
      ≡ inr valued_snapshot)
    ↔ IsReconciled small_reading some_balances valued_positions valued_snapshot
build_reconciled_paper_portfolio_snapshot_iff_example =
    build_reconciled_paper_portfolio_snapshot_iff small_reading some_balances valued_positions
      valued_snapshot

valued_snapshot-built :
    build_reconciled_paper_portfolio_snapshot small_reading some_balances valued_positions
    ≡ inr valued_snapshot
unfolding build_reconciled_paper_portfolio_snapshot
    firstrade_platform.Broker.Adapters.Reconciled.reconciled_from
    firstrade_platform.Broker.Adapters.Reconciled.reconciled_positions
    firstrade_platform.Broker.Adapters.Reconciled.with_evidence
    firstrade_platform.Broker.Adapters.Reconciled.row_evidence
    firstrade_platform.Broker.Adapters.Reconciled.evidence_for
    firstrade_platform.Broker.Adapters.Reconciled.evidence_with
    firstrade_platform.Broker.Adapters.Reconciled.reconciled_with
    firstrade_platform.Broker.Adapters.normalize_symbol
    firstrade_platform.Broker.Adapters.market_value_of
    firstrade_platform.Broker.Fields.iter_position_rows firstrade_platform.Broker.Fields.rows_of
    firstrade_platform.Broker.Fields.get_first firstrade_platform.Broker.Fields.first_key
    firstrade_platform.Broker.Fields.members_onto firstrade_platform.Broker.Fields.text_or_empty
    firstrade_platform.Broker.Fields.first_list
    firstrade_platform.Broker.Fields.first_numeric_by_keyword_groups
    firstrade_platform.Broker.Fields.first_numeric_in firstrade_platform.Broker.Payload.digits
    firstrade_platform.Broker.Payload.drop_last firstrade_platform.Broker.Payload.ends_with_bracket
    firstrade_platform.Broker.Payload.flatten_values firstrade_platform.Broker.Payload.float_or_none
    firstrade_platform.Broker.Payload.number_of_text firstrade_platform.Broker.Payload.update
    firstrade_platform.Broker.Payload.without_dollar firstrade_platform.Prelude.get
    firstrade_platform.Prelude.put firstrade_platform.Prelude.upper
    firstrade_platform.Prelude.has_key firstrade_platform.Prelude.rekey
    firstrade_platform.Prelude.rekey_onto firstrade_platform.Prelude.is_space
    firstrade_platform.Prelude.is_substring firstrade_platform.Prelude.lower
    firstrade_platform.Prelude.starts_with firstrade_platform.Prelude.text_eq
    firstrade_platform.Prelude.to_lower firstrade_platform.Prelude.to_upper
    firstrade_platform.Prelude.◌+ℤ◌ strip lstrip
valued_snapshot-built = refl

-- A holding that is no mapping is left out.
abbrev malformed_positions : Json
malformed_positions = listing (
    item
      (mapping (
        member (codes "symbol") (text (codes "soxx")) (
          member (codes "quantity") (text (codes "3"))
            (member (codes "value") (text (codes "60")) no_member))))
      (item (text (codes "TSLA 100")) no_item))

malformed_row_is_omitted :
    build_reconciled_paper_portfolio_snapshot small_reading some_balances malformed_positions
    ≡ inr valued_snapshot
unfolding build_reconciled_paper_portfolio_snapshot
    firstrade_platform.Broker.Adapters.Reconciled.reconciled_from
    firstrade_platform.Broker.Adapters.Reconciled.reconciled_positions
    firstrade_platform.Broker.Adapters.Reconciled.with_evidence
    firstrade_platform.Broker.Adapters.Reconciled.row_evidence
    firstrade_platform.Broker.Adapters.Reconciled.evidence_for
    firstrade_platform.Broker.Adapters.Reconciled.evidence_with
    firstrade_platform.Broker.Adapters.Reconciled.reconciled_with
    firstrade_platform.Broker.Adapters.normalize_symbol
    firstrade_platform.Broker.Adapters.market_value_of
    firstrade_platform.Broker.Fields.iter_position_rows firstrade_platform.Broker.Fields.rows_of
    firstrade_platform.Broker.Fields.get_first firstrade_platform.Broker.Fields.first_key
    firstrade_platform.Broker.Fields.members_onto firstrade_platform.Broker.Fields.text_or_empty
    firstrade_platform.Broker.Fields.first_list
    firstrade_platform.Broker.Fields.first_numeric_by_keyword_groups
    firstrade_platform.Broker.Fields.first_numeric_in firstrade_platform.Broker.Payload.digits
    firstrade_platform.Broker.Payload.drop_last firstrade_platform.Broker.Payload.ends_with_bracket
    firstrade_platform.Broker.Payload.flatten_values firstrade_platform.Broker.Payload.float_or_none
    firstrade_platform.Broker.Payload.number_of_text firstrade_platform.Broker.Payload.update
    firstrade_platform.Broker.Payload.without_dollar firstrade_platform.Prelude.get
    firstrade_platform.Prelude.put firstrade_platform.Prelude.upper
    firstrade_platform.Prelude.has_key firstrade_platform.Prelude.rekey
    firstrade_platform.Prelude.rekey_onto firstrade_platform.Prelude.is_space
    firstrade_platform.Prelude.is_substring firstrade_platform.Prelude.lower
    firstrade_platform.Prelude.starts_with firstrade_platform.Prelude.text_eq
    firstrade_platform.Prelude.to_lower firstrade_platform.Prelude.to_upper
    firstrade_platform.Prelude.◌+ℤ◌ strip lstrip
malformed_row_is_omitted = refl

abbrev listed_orders : Json
listed_orders = mapping (
    member (codes "items")
      (listing (
        item
          (mapping (
            member (codes "order_id") (text (codes "77")) (
              member (codes "status") (text (codes "Filled"))
                (member (codes "filled") (text (codes "3")) no_member))))
          no_item))
      no_member)

order_77-named : is_empty (strip (codes "77")) ≡ false
unfolding strip lstrip firstrade_platform.Prelude.is_space
order_77-named = refl

get_order_status-IsStatusOf_example :
    IsStatusOf small_reading
      (strip (codes "77"))
      (get_orders listed_orders)
      (get_order_status small_reading (codes "77") listed_orders)
get_order_status-IsStatusOf_example =
    get_order_status-IsStatusOf small_reading Cents-IsOrdered (codes "77") listed_orders
      order_77-named
