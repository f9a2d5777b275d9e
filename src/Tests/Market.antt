-- ===== src/Tests/Market.antt =====
-- The price histories and the request queues.
use execution_layer_terminal.Prelude.{◌≡◌, refl, none, [], ◌∷◌, string_eq, length, arith}
use execution_layer_terminal.Prelude.Int.{pos}
use execution_layer_terminal.Double.Rational.{ℚ, rational}
use execution_layer_terminal.Keyed.{lookup, insert, has, replace, place}
use execution_layer_terminal.MarketStore.{init, tape, on_trade, backfill_history, trim}
use execution_layer_terminal.MarketStore.Book.{
  Book, IsRead, run_store, run_book, quoted, traded, backfilled, run_store-IsRead,
}
use execution_layer_terminal.MarketStore.History.{IsBounded, on_trade-IsBounded}
use execution_layer_terminal.MarketStore.Backfill.{IsAscending, backfill_history-IsAscending}
use execution_layer_terminal.Tests.Data.{btc, whole, quote, store, candles}

init-IsBounded : IsBounded {F = ℚ} init
unfolding init lookup
init-IsBounded s = omega arith

store-IsBounded : IsBounded store
store-IsBounded = on_trade-IsBounded init btc (whole 100) (pos 500) init-IsBounded

backfill_history-IsAscending_example : IsAscending (tape (backfill_history store btc candles) btc)
unfolding on_trade init lookup insert has place trim
backfill_history-IsAscending_example =
    backfill_history-IsAscending store btc candles (omega arith, (omega arith, tt)) tt

-- The one candle before the tape goes in front of it.
backfilled_three : length (tape (backfill_history store btc candles) btc) ≡ 3
unfolding on_trade backfill_history init lookup insert has place replace trim
backfilled_three = refl

-- An empty store is an empty book.
abbrev empty_book : Book ℚ
empty_book = record { quote = λ s. none; points = λ s. [] }

run_store-IsRead_example :
    IsRead
      (run_store init
        (quoted (quote 99 100) ∷ traded btc (whole 100) (pos 500) ∷ backfilled btc candles ∷ []))
      (run_book empty_book
        (quoted (quote 99 100) ∷ traded btc (whole 100) (pos 500) ∷ backfilled btc candles ∷ []))
unfolding init lookup
run_store-IsRead_example =
    run_store-IsRead init empty_book
      (quoted (quote 99 100) ∷ traded btc (whole 100) (pos 500) ∷ backfilled btc candles ∷ [])
      record { quotes = λ s. refl; tapes = λ s. refl }
