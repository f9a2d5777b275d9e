-- ===== src/Lib.antt =====
-- Execution Layer Terminal: a model of the trading core in cpp/ and the theorems about it.
--
-- The program is a trading terminal. A Python process sends crypto quotes and trades over a local
-- socket, and the feed server writes them into the market store; a second thread polls a broker for
-- stock quotes. The engine thread owns the desk: it drains the commands that the terminal posts,
-- reads both caches, sends orders through the order management system, and publishes a snapshot.
-- The order management system asks its account gate and the risk manager, routes to the paper
-- matching engine, and applies the fills to the portfolio.
--
-- Which file models which part:
--   Types: cpp/include/execution/types.hpp (Quote::touch, Position::apply, ...)
--   Portfolio: cpp/include/execution/portfolio.hpp
--   Risk: cpp/include/execution/risk.hpp, cpp/src/risk.cpp
--   Matching: cpp/include/execution/matching.hpp, cpp/src/matching.cpp
--   Oms: cpp/include/execution/oms.hpp, cpp/src/oms.cpp
--   MarketStore: cpp/include/execution/market_store.hpp, cpp/src/market_store.cpp
--   StockFeed (operations, one pass of the loop), StockFeed/Thread (its thread in steps):
--     cpp/include/execution/stock_feed.hpp, cpp/src/stock_feed.cpp
--   FeedServer (framing), FeedServer/Handler (handle_line): cpp/include/execution/feed_server.hpp,
--     cpp/src/feed_server.cpp
--   FeedServer/Socket (send_all, start, stop, run): the same files
--   FeedProcess: cpp/include/execution/feed_process.hpp, cpp/src/feed_process.cpp
--   Alpaca/Request (the client and its requests), Alpaca (the methods):
--     cpp/include/execution/alpaca_client.hpp, cpp/src/alpaca_client.cpp
--   Gui/Format, Gui/Chart, Gui/PnlChart, Gui/Ticket, Gui/Panels, Gui/Desk (main):
--     cpp/src/terminal_gui.cpp
--   Engine/State, Engine (commands), Engine/View (publish), Engine/Loop (a round), Engine/Running
--     (start, stop), Engine/Thread (its thread in steps): cpp/include/execution/engine.hpp,
--     cpp/src/engine.cpp
--   Selftest: cpp/src/selftest.cpp
-- The children of a module are named for what they prove; Prelude, Double and Keyed are shared
-- (tests and lists, numbers, maps), Tests holds runs at concrete inputs.
--
-- State and operations. A class is a record of its fields, a method a function from the state to
-- the new state, with the code's tests in the code's order. A map is a list of entries in the order
-- of its keys; std::optional is Option.
--
-- Threads. What a thread does under a lock, or between two tests of the flag that stops it, is one
-- step, and its place in the loop is part of the state: Engine/Thread for the engine, StockFeed/Thread
-- for the poller. A run is any sequence of their steps and of the acts of the other threads: a
-- command posted, a feed that leaves its cache in any state, the request to stop. Engine/Loop.cycle
-- and StockFeed.poll are the same code as one function, for a thread that nothing interrupts. Gui/Desk
-- puts the window in front of the engine thread: a frame is a function of what the widgets return,
-- which is an input, to the variables of the window and the commands that it posts, and these reach
-- the queue one by one, among the steps of the engine.
--
-- Numbers. A double is a type parameter F with the operations of Double: what holds without laws
-- holds of IEEE numbers. Theorems on money state IsExact, the laws of an ordered field, so that no
-- operation rounds; Double/Rational shows that the rational numbers meet them. Timestamps are
-- integers without overflow; the order counter wraps at 2 ^ 64. Loops run over lists. Three are on
-- fuel: over the lines of a buffer and over the bytes to send, with the number of bytes, since every
-- round that goes on takes one; and over the places of commas, with the length of the text.
-- The bounds are those of the code: 4096 points, 200 log lines, 1800 samples, 50 errors.
--
-- Parameters: snprintf (Engine.Runtime, Gui.Format.Printing), conversions of numbers and texts
-- (Gui.Panels.Toolkit, Gui.PnlChart.PnlScale), the square root and the literals of the
-- window (Gui.Chart.Scale, Gui.Desk.Defaults), the broker's client of the stock feed
-- (StockFeed.Client, which Alpaca/Polling fills), libcurl with the JSON library, the clock and the
-- calendar (Alpaca.Libraries), the JSON library of the feed (FeedServer.Json), and the operating
-- system (FeedProcess.System, FeedServer.Socket.Sockets). The clocks are arguments, in milliseconds.
--
-- Not modelled: how long a sleep or a request really takes (a step has the clock as an argument), the
-- drawing of the window, its colours and its layout, the timed and networked test programs
-- (engine_test, alpaca_test), the Python feedhandler, and the messages on the error stream.
pub mod Prelude
pub mod Double
pub mod Keyed
pub mod Types
pub mod Portfolio
pub mod Risk
pub mod Matching
pub mod Oms
pub mod MarketStore
pub mod StockFeed
pub mod FeedServer
pub mod Engine
pub mod Selftest
pub mod Tests
pub mod FeedProcess
pub mod Gui
pub mod Alpaca
