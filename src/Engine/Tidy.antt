-- ===== src/Engine/Tidy.antt =====
-- The lists that the engine keeps: the log, the samples, the watch lists.
use execution_layer_terminal.Prelude.{
  ℕ, ◌-◌, ◌≤◌, ◌≡◌, refl, Bool, true, false, not, ◌&&◌, String, List, [], ◌∷◌, string_eq, nat_eq,
  Bool-cases, inl, inr, is_empty, contains, leb, length, length-drop, arith,
}
use execution_layer_terminal.Keyed.{nat_ordered}
use execution_layer_terminal.Types.{AssetClass, crypto, stock}
use execution_layer_terminal.MarketStore.{trim, add_once}
use execution_layer_terminal.MarketStore.History.{trim-eq-drop, length-trim-le}
use execution_layer_terminal.MarketStore.Requests.{IsDistinct, add_once-IsDistinct, snoc-IsDistinct}
use execution_layer_terminal.Engine.{
  Engine, log, set_focus, add_stock, add_crypto, add_ticker, is_stock, log_cap,
}
use execution_layer_terminal.Engine.View.{sample_cap}
use execution_layer_terminal.Engine.Loop.{
  ask_history, refresh_history, log_all, refresh_catalog, catalog_due, read_products, populate,
  add_all,
}

last_guard : (a b c : Bool) → (a && b && not c) ≡ true → c ≡ false
last_guard a b c h = ground arith

add_all-IsDistinct : (l ss : List String) → IsDistinct l → IsDistinct (add_all l ss)
unfolding add_all
add_all-IsDistinct l [] h = h
add_all-IsDistinct l (s ∷ ss) h = add_all-IsDistinct (add_once l s) ss (add_once-IsDistinct l s h)

module _ {F : Type 0} where
  -- What is kept of the lists.
  pub record IsTidy (m : Engine F) : Type 0 where
    pub log_bound : length m.log_lines ≤ log_cap
    pub samples_bound : length m.pnl_hist ≤ sample_cap
    pub samples_paired : length m.pnl_hist ≡ length m.eq_hist
    pub symbols_distinct : IsDistinct m.symbols
    pub stocks_distinct : IsDistinct m.stock_symbols
    pub requests_distinct : IsDistinct m.hist_requested

  pub log-IsTidy : (m : Engine F) (s : String) → IsTidy m → IsTidy (log m s)
  unfolding log
  log-IsTidy m s h = record {
    log_bound = length-trim-le log_cap _;
    samples_bound = h.samples_bound;
    samples_paired = h.samples_paired;
    symbols_distinct = h.symbols_distinct;
    stocks_distinct = h.stocks_distinct;
    requests_distinct = h.requests_distinct;
  }

  -- A state with the same lists is as tidy.
  with_lists :
      (m : Engine F)
      → IsTidy m
      → (n : Engine F) → n.log_lines ≡ m.log_lines
      → n.pnl_hist ≡ m.pnl_hist
      → n.eq_hist ≡ m.eq_hist
      → IsDistinct n.symbols
      → IsDistinct n.stock_symbols
      → IsDistinct n.hist_requested
      → IsTidy n
  with_lists m h n a b c s t r = record {
    log_bound = rw a h.log_bound;
    samples_bound = rw b h.samples_bound;
    samples_paired = rw (b, c) h.samples_paired;
    symbols_distinct = s;
    stocks_distinct = t;
    requests_distinct = r;
  }

  pub same_lists :
      (m : Engine F)
      → IsTidy m
      → (n : Engine F) → n.log_lines ≡ m.log_lines
      → n.pnl_hist ≡ m.pnl_hist
      → n.eq_hist ≡ m.eq_hist
      → n.symbols ≡ m.symbols
      → n.stock_symbols ≡ m.stock_symbols
      → n.hist_requested ≡ m.hist_requested
      → IsTidy n
  same_lists m h n a b c s t r =
      with_lists m h n a b c (rw s h.symbols_distinct) (rw t h.stocks_distinct)
        (rw r h.requests_distinct)

  pub log_all-IsTidy : (m : Engine F) (es : List String) → IsTidy m → IsTidy (log_all m es)
  unfolding log_all
  log_all-IsTidy m [] h = h
  log_all-IsTidy m (e ∷ es) h = log_all-IsTidy (log m e) es (log-IsTidy m e h)

  pub add_ticker-IsTidy :
      (a : AssetClass) (m : Engine F) (s : String) → IsTidy m → IsTidy (add_ticker a m s)
  unfolding add_stock add_crypto set_focus
  add_ticker-IsTidy stock m s h = elim (Bool-cases (contains m.stock_symbols s)) [
    | inl old ↦ rw old h
    | inr fresh ↦ rw fresh (
        log-IsTidy _ _ (
          with_lists m h _ refl refl refl h.symbols_distinct
            (snoc-IsDistinct m.stock_symbols s h.stocks_distinct fresh) h.requests_distinct))
  ]
  add_ticker-IsTidy crypto m s h = elim (Bool-cases (contains m.symbols s)) [
    | inl old ↦ rw old h
    | inr fresh ↦ rw fresh (
        log-IsTidy _ _ (
          with_lists m h _ refl refl refl (snoc-IsDistinct m.symbols s h.symbols_distinct fresh)
            h.stocks_distinct h.requests_distinct))
  ]

  pub ask_history-IsTidy : (m : Engine F) → IsTidy m → IsTidy (ask_history m)
  unfolding ask_history
  ask_history-IsTidy m h =
      elim (Bool-cases (
        not (is_empty m.focus)
        && not (is_stock m m.focus)
        && not (contains m.hist_requested m.focus))) [
          | inl ask ↦ rw ask (
              with_lists m h _ refl refl refl h.symbols_distinct h.stocks_distinct (
                snoc-IsDistinct m.hist_requested m.focus h.requests_distinct
                  (last_guard (not (is_empty m.focus)) (not (is_stock m m.focus)) _ ask)))
          | inr no_need ↦ rw no_need h
        ]

  pub refresh_history-IsTidy : (now : ℕ) (m : Engine F) → IsTidy m → IsTidy (refresh_history now m)
  unfolding refresh_history
  refresh_history-IsTidy now m h =
      elim (Bool-cases (not (is_empty m.focus) && leb m.next_history now)) [
        | inl due ↦ rw due (same_lists m h _ refl refl refl refl refl refl)
        | inr early ↦ rw early h
      ]

  pub populate-IsTidy : (now : ℕ) (m : Engine F) → IsTidy m → IsTidy (populate now m)
  populate-IsTidy now m h =
      with_lists m h _ refl refl refl
        (add_all-IsDistinct m.symbols m.store.universe h.symbols_distinct) h.stocks_distinct
        h.requests_distinct

  pub refresh_catalog-IsTidy : (now : ℕ) (m : Engine F) → IsTidy m → IsTidy (refresh_catalog now m)
  unfolding refresh_catalog
  refresh_catalog-IsTidy now m h = elim (Bool-cases (catalog_due now m)) [
    | inl due ↦
        rw due
          (populate-IsTidy now _ (same_lists m h (read_products m) refl refl refl refl refl refl))
    | inr early ↦ rw early h
  ]

  pub length-trim :
      (cap : ℕ) (xs ys : List F)
      → length xs ≡ length ys
      → length (trim cap xs) ≡ length (trim cap ys)
  length-trim cap xs ys h =
      rw
        (
          trim-eq-drop cap xs,
          trim-eq-drop cap ys,
          length-drop (length xs - cap) xs,
          length-drop (length ys - cap) ys,
          h,
        )
        refl
