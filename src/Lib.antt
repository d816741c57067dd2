-- ===== src/Lib.antt =====
-- A model of emma, a personal assistant: a Telegram channel, a router that runs one turn at a time
-- against a language model with tools, a memory in SQLite, a queue of development requests, and
-- switches for the tools.
--
-- How the parts fit. adapters/telegram.py passes a message of the one allowed user to
-- core/router.py, which reads the history from core/memory.py, asks the model through core/llm.py
-- (retries paced by core/retry.py), runs the tools that the model calls, and stores the exchange.
-- tools/toolstate is the router's gate, and the tool that removes a tool files a job in the queue
-- of core/tasks.py. tools/facts keeps what the user asked to remember and puts it into the prompt.
-- tools/development.py fills, reads and answers the queue from the chat. main.py reads config.py,
-- builds all of it, opens the stores in order, closes them in the reverse order, and reports its
-- health with what core/version.py says of the deploy.
--
-- Which file models what, each with the names of the source:
--   Common             Python's str, dict, round and the like; results of calls that may raise
--   Retry              core/retry.py
--   Llm                the errors, blocks and messages of core/llm.py; Llm/Json the dynamic values
--   Llm/Ladder         _RetryLadder and its helpers in core/llm.py
--   Llm/Groq           the translation to and from Groq in core/llm.py
--   Llm/Anthropic      its _to_response
--   Llm/Clients        AnthropicLanguageModel and GroqLanguageModel of core/llm.py
--   Memory             InMemoryConversationMemory of core/memory.py
--   Memory/Contract    ConversationMemory, the interface of the two stores, with its promises
--   Memory/Sqlite      SqliteConversationMemory: the table and the methods over it
--   Memory/Recovery    its open, close, _recover and _write_snapshot: the files on the disk
--   Router             the data and the registry of core/router.py
--   Router/Tools       the gate, the tools and the system prompt of a turn
--   Router/Loop        _run_agentic_loop
--   Router/Handle      Router.handle
--   Tasks              core/tasks.py
--   ToolState          tools/toolstate/store.py
--   ToolState/Removal  tools/toolstate/tools.py
--   Facts              tools/facts/store.py
--   Facts/Context      FactsContext of tools/facts/tools.py
--   Facts/Tools        RememberFact and ForgetFact of tools/facts/tools.py
--   Telegram           TelegramAdapter of adapters/telegram.py
--   Telegram/Split     its _split_message
--   Telegram/Lifecycle its start, stop and is_listening
--   Development        tools/development.py: the requests and the answers; Development/Listing
--                      WorkStatus, Development/Dropping AbandonDevelopment, Development/Context
--                      DevelopmentContext
--   Config             config.py
--   Version            core/version.py
--   Clock              tools/clock.py
--   Introspection      tools/introspection.py
--   App/Lifespan       lifespan of create_app in main.py
--   App/Health         its health endpoint, with TurnStats.summary of core/router.py
--   App/Catalogue      the tools as the router gets them: names, descriptions, schemas, runs
--   App/Wiring         create_app and main of main.py; App/Switches those tools behind
--                      the gate, App/Turns whole turns with them
-- The modules below these hold the proofs, named for what they are about, and the tests.
--
-- How it is modelled. A text is the list of its code points. A table is the list of its rows in
-- the order of their ids, with the last id that AUTOINCREMENT gave out. A method that holds the
-- lock of its store is one step. A call that may raise gives a Result, and the state that it
-- leaves stands beside it. The model's SDK, the tools, the context providers and Telegram are
-- functions of a world that they may change, given as parameters; so are the database engine (the
-- integrity check, the copy that VACUUM INTO makes, what a connection reads in a file and the log
-- beside it), the parsing of a header as a float, and Python's print of a list or a dict, its json
-- module and SQLite's lower. In the recovery, Faults has switches for making the directory, the
-- renames, the copies, the connection and its first statements, VACUUM INTO and the deletions; a
-- test of existence does not raise, and what the integrity check raises is its answer no. Times are
-- whole numbers: seconds where a pause or a threshold is computed, ticks elsewhere, and a method
-- reads the clock once. The seconds that a provider advises to wait are a float: a fraction, an
-- infinity or no number at all, and a quotient of it is rounded exactly, half to even, without the
-- rounding of the division itself.
--
-- Bounds and fuel. The loop of the router and the attempts of the ladder and of a send recur on
-- the number of rounds that the source allows. The deletion of orphaned rows has a round for each
-- row, and every round deletes one. The splitting of a message has a round for each character, and
-- every round takes one at least.
--
-- What config.py asks of the machine (python-dotenv, pathlib, the reading of an integer, the file of
-- the personality) is a record of functions, Host; what the deploy left (the stamp, the checkout, the
-- files with their times) is given as data.
--
-- Not modelled: logging; file permissions; a test of a path (exists, is_file) that raises; SQL errors
-- other than on a store that nobody opened, and what the library raises when a connection is opened or
-- closed is given; the fields of a reply that the clients of core/llm.py only log, and the closing of
-- their connection; FastAPI, uvicorn and the python-telegram-bot application, which the source only
-- calls, save that what uvicorn.run does with the process (it returns, exits or raises) is a
-- parameter; the shell scripts and the service units. The time zone database and
-- datetime.fromisoformat are parameters.
pub mod Common
pub mod Retry
pub mod Llm
pub mod Memory
pub mod Router
pub mod Tasks
pub mod ToolState
pub mod Telegram
pub mod Facts
pub mod Development
pub mod Config
pub mod Version
pub mod Clock
pub mod Introspection
pub mod App
