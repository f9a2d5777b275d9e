-- ===== src/Alpaca/Polling.antt =====
-- The stock feed with the client of the broker in it.
use execution_layer_terminal.Prelude.{ℕ, suc, List}
use execution_layer_terminal.Prelude.Int.{pos}
use execution_layer_terminal.Double.{Double}
use execution_layer_terminal.StockFeed.{StockFeed, Client}
use execution_layer_terminal.StockFeed.Prices.{IsPriced, PricesBars}
use execution_layer_terminal.StockFeed.Thread.{Event, init, start, run}
use execution_layer_terminal.StockFeed.Thread.Kept.{run-IsPriced}
use execution_layer_terminal.Alpaca.{
  Libraries, AlpacaClient, recent_minute_bars, asset_name, latest_quotes,
}
use execution_layer_terminal.Alpaca.Bars.{recent_minute_bars-Positive}

-- The state of the client, and how many of its methods have been called. The libraries may answer
-- otherwise at each call: the network, the service behind it, and the clock.
abbrev pub Caller : Type 0
Caller = AlpacaClient × ℕ

abbrev counted : {A : Type 0} → ℕ → A × AlpacaClient → A × Caller
counted n r = (r.0, (r.1, suc n))

module _ {J F : Type 0} ⦃d : Double F⦄ (libs : ℕ → Libraries J F) where
  -- A method makes one request at most, with the libraries as they are at its call.
  unfoldable pub broker : Client Caller F
  broker = record {
    recent_minute_bars =
        λ (c, i) symbol n. counted i (recent_minute_bars (libs i) c symbol (pos n));
    asset_name = λ (c, i) symbol. counted i (asset_name (libs i) c symbol);
    latest_quotes = λ (c, i) symbols. counted i (latest_quotes (libs i) c symbols);
    last_error = λ (c, i). c.err;
  }

  broker-PricesBars : PricesBars broker
  unfolding broker
  broker-PricesBars (c, i) symbol n = recent_minute_bars-Positive (libs i) c symbol (pos n)

  -- If every price in the series of the stocks is positive when the poller is started, every one is
  -- ever after, whatever the network, the service and the clock answer at each call of the client, and
  -- however other threads call the feed between the steps of the poller.
  pub run-broker-IsPriced :
      (c : Caller) (m : StockFeed F) (now : ℕ) (es : List Event)
      → IsPriced m
      → IsPriced (run broker es (start now (init c m))).feed
  run-broker-IsPriced c m now es h = run-IsPriced broker broker-PricesBars c m now es h
