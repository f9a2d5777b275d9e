-- ===== src/Alpaca/Failures.antt =====
-- How a call of the client ends.
use Prim.Native.String.{◌++◌ as ◌++ˢ◌}
use execution_layer_terminal.Prelude.{
  ℕ, suc, ◌≡◌, refl, true, false, ◌||◌, String, List, [], ◌∷◌, Bool-cases, inl, inr, arith,
}
use execution_layer_terminal.Prelude.Int.{ℤ, pos, ◌≤ℤ◌, ltb_ℤ}
use execution_layer_terminal.Double.{Double}
use execution_layer_terminal.Alpaca.{
  Transfer, no_handle, broken, answered, Try, returned, thrown, Libraries, AlpacaClient, configured,
  parse_error, caught, request, get, take_answer, with_body, asset_url, name_of, asset_name,
  quotes_url, quotes_of, latest_quotes, daily_url, closes_of, daily_bars, minute_url, points_of,
  recent_minute_bars,
}

-- A status of the HTTP class of success.
abbrev pub Succeeds : ℤ → Type 0
Succeeds status = (pos 200 ≤ℤ status) × (status ≤ℤ pos 299)

Succeeds-in_class : (s : ℤ) → (ltb_ℤ s (pos 200) || ltb_ℤ (pos 299) s) ≡ false → Succeeds s
Succeeds-in_class s h = (ground (arith, h), ground (arith, h))

not-Succeeds : (s : ℤ) → (ltb_ℤ s (pos 200) || ltb_ℤ (pos 299) s) ≡ true → Succeeds s → ⊥
not-Succeeds s h (low, high) = ground (arith, h, low, high)

pub positive : (n : ℕ) → ltb_ℤ (pos 0) (pos (suc n)) ≡ true
positive n = ground arith

module _ {J F : Type 0} (lib : Libraries J F) where
  -- Why there is no body, with the words that the client keeps of it.
  pub data Failure (c : AlpacaClient) (url : String) : String → Type 0 where
    unset : configured c ≡ false → Failure c url "ALPACA_API_KEY_ID/ALPACA_API_SECRET_KEY not set"
    uninitialised : request lib c url ≡ no_handle → Failure c url "curl_easy_init failed"
    unreached :
        (words : String)
        → request lib c url ≡ broken words
        → Failure c url ("curl error: " ++ˢ words)
    refused :
        (status : ℤ) (body : String)
        → request lib c url ≡ answered status body
        → (Succeeds status → ⊥)
        → Failure c url ("alpaca HTTP " ++ˢ lib.decimal status ++ˢ ": " ++ˢ body)

  pub record Answer (c : AlpacaClient) (url body : String) : Type 0 where
    pub authorised : configured c ≡ true
    pub status : ℤ
    pub received : request lib c url ≡ answered status body
    pub succeeded : Succeeds status

  -- The three ends of a call: it fails, the body is not understood, or it is read. Only the last
  -- gives more than nothing, and it alone leaves the last error as it was.
  pub data Call {A : Type 0} (c : AlpacaClient) (nothing : A) (url : String)
      (meaning : String → Try A) (r : A × AlpacaClient) : Type 0 where
    fails :
        (words : String)
        → Failure c url words
        → r ≡ (nothing, record c { err = words })
        → Call c nothing url meaning r
    misreads :
        (body what : String)
        → Answer c url body
        → meaning body ≡ thrown what
        → r ≡ (nothing, record c { err = parse_error what })
        → Call c nothing url meaning r
    reads :
        (body : String) (a : A)
        → Answer c url body
        → meaning body ≡ returned a
        → r ≡ (a, c)
        → Call c nothing url meaning r

  module _ {A : Type 0} (c : AlpacaClient) (nothing : A) (url : String)
      (meaning : String → Try A) where
    read_ends :
        (body : String) (t : Try A)
        → Answer c url body
        → meaning body ≡ t
        → Call c nothing url meaning (caught nothing c t)
    read_ends body (returned a) h e = reads body a h e refl
    read_ends body (thrown what) h e = misreads body what h e refl

    answer_ends :
        (t : Transfer)
        → configured c ≡ true
        → request lib c url ≡ t
        → Call c nothing url meaning (with_body lib nothing meaning (take_answer lib c t))
    answer_ends no_handle h e = fails _ (uninitialised e) refl
    answer_ends (broken words) h e = fails _ (unreached words e) refl
    answer_ends (answered status body) h e =
        elim (Bool-cases (ltb_ℤ status (pos 200) || ltb_ℤ (pos 299) status)) [
          | inl out ↦ rw out (fails _ (refused status body e (not-Succeeds status out)) refl)
          | inr ok ↦ rw ok (
              read_ends body (meaning body)
                record {
                  authorised = h;
                  status = status;
                  received = e;
                  succeeded = Succeeds-in_class status ok;
                }
                refl)
        ]

    pub Call-ends : Call c nothing url meaning (with_body lib nothing meaning (get lib c url))
    unfolding get
    Call-ends = elim (Bool-cases (configured c)) [
      | inl set ↦ rw set (answer_ends (request lib c url) set refl)
      | inr missing ↦ rw missing (fails _ (unset missing) refl)
    ]

module _ {J F : Type 0} ⦃d : Double F⦄ (lib : Libraries J F) where
  -- The methods, each with what it asks for and what it reads in the body.
  pub record Ends (c : AlpacaClient) (symbol : String) (more : List String) (n : ℕ) : Type 0 where
    pub quotes :
        Call lib c []
          (quotes_url lib (symbol ∷ more))
          (quotes_of lib)
          (latest_quotes lib c (symbol ∷ more))
    pub closes :
        Call lib c []
          (daily_url lib symbol (pos n))
          (closes_of lib)
          (daily_bars lib c symbol (pos n))
    pub bars :
        Call lib c []
          (minute_url lib symbol (pos (suc n)))
          (points_of lib)
          (recent_minute_bars lib c symbol (pos (suc n)))
    pub asset : Call lib c "" (asset_url lib symbol) (name_of lib) (asset_name lib c symbol)

  -- Every request for symbols, bars or a name ends in one of three ways: it fails, for want of
  -- credentials, of a handle, of a connection or of a status of success, or the body throws as it is
  -- read, and then nothing is answered and the reason kept as the last error; or the body is read,
  -- what it says is answered, and the last error stays what it was.
  pub methods-Ends :
      (c : AlpacaClient) (symbol : String) (more : List String) (n : ℕ) → Ends c symbol more n
  unfolding daily_bars recent_minute_bars asset_name
  methods-Ends c symbol more n = record {
    quotes = Call-ends lib c [] (quotes_url lib (symbol ∷ more)) (quotes_of lib);
    closes = Call-ends lib c [] (daily_url lib symbol (pos n)) (closes_of lib);
    bars =
        rw (positive n) (Call-ends lib c [] (minute_url lib symbol (pos (suc n))) (points_of lib));
    asset = Call-ends lib c "" (asset_url lib symbol) (name_of lib);
  }
