-- ===== src/Lib.antt =====
-- World Boss Raid: players attack one boss together, by dice, over TLS. A server process accepts the
-- connections and forks a worker for each; the workers share the game in a mapped memory under a
-- mutex. A client has a UI thread and a network thread.
--
-- The parts, and where they are modelled:
--   Base               lists, Booleans, the integers, and C strings (strncpy, strcmp, strnlen) as
--                      lists of bytes
--   GameState          src/server/logic/gamestate.{h,c}: the shared memory as the record
--                      GameSharedData, each critical section a function with its name; Invariant has
--                      the well-formed states, Damage rows of hits, Streak the table of
--                      gamestate_update_streak as a map from names
--   Dice               src/server/logic/dice.{h,c}: game_process_attack; rand() and time() are
--                      parameters
--   Raid               the workers of handle_client on one shared memory: a step is one critical
--                      section of one worker, in any order. Pc is where a worker stands between two
--                      of them
--   Protocol           src/common/protocol.h: the opcodes, the packed structures and their bytes
--                      (Wire), and calc_checksum of both programs (Checksum)
--   Security           src/server/security: rate_limiter.c, replay_protection.c, input_validator.c
--   Net                the calls of OpenSSL and of the operating system, as a parameter (Os), with
--                      the loops that read and write over it; Laws and Patience have the documented
--                      behaviour of SSL_read and SSL_write as hypotheses
--   Handler            src/server/logic/client_handler.c: Packets has recv_packet_with_timeout and
--                      send_packet, Session has handle_client with handle_join, handle_attack, the
--                      heartbeat and cleanup_client over the state of one worker
--                      (Joining and Answering have a worker meet the requests of a client)
--   Log                src/common/log.c: the static variables, and the stream and the parts of a line
--   Resources          the calls that hand something out, as one parameter that answers them, and the
--                      account of what is held (Held), which the model keeps beside it
--   Tls                src/common/tls.c over Resources
--   Client             src/client/client.c: Packets has the requests, Network the network thread's
--                      rounds and the critical sections of the callbacks, Threads both threads as a
--                      step relation, Modes the two interactive modes, Stress a thread of the stress
--                      mode, Main the choice of the mode;
--                      src/client/ui/login.c: Login has the name of the player and what is drawn;
--                      src/client/ui/{bonus,god,end}.c: Screens has the full-screen animations;
--                      src/client/ui/client_ui.c: Ui has ui_game_loop, Draw what is drawn
--                      where
--   Server             src/server/server.c: the start, the accept loop and the process of a worker,
--                      which runs handle_client of Handler.Session; Reaping has the SIGCHLD handler
--   Tests              runs at concrete inputs
--
-- A worker of Session and a client of Client.Packets meet in the bytes of Protocol.Wire. Dice is the
-- attack of one worker that nobody interrupts, and Raid is the same calls with others between them.
-- Client.Packets.RoundTrip and JoinTrip put a client and a worker together, request and answer, and
-- Client.Packets.Conversation puts a join and any number of requests after it together, while other
-- workers change the game in between.
--
-- Integers: an int is ℤ without overflow, which C leaves undefined. The unsigned integers are ℕ with
-- their wrap written out. Times are seconds in ℤ.
--
-- Fuel: a reading loop takes one unit for each call of SSL_read, and ends `starved` without any: the
-- bytes asked for, each with the retries before it, are enough (Net.Patience). A writing loop takes
-- one unit for each byte, which always is enough. main_loop takes the number of its rounds, since
-- handle_client itself has no bound. network_rounds takes the number of rounds too, and ui_game_loop
-- the keys.
--
-- The loop of an animation takes one unit for each call of getch; where the player presses the key at
-- some time, the number of the calls before it and one is enough (Client.Screens.Ending).
--
-- In Resources a call's answer may depend on the state of the environment, and nothing is assumed of
-- it but what a theorem names. The accept loop takes the number of its rounds.
--
-- Left out: the tests for NULL, the mutexes and condition variables beyond the atomic sections that
-- they make, colours and pauses, the calls of the log in other modules, and SIGQUIT in the middle
-- of a round of the accept loop and at a worker. In Session the game is changed by the one worker
-- only. In Client.Modes.Threaded the network thread makes whole rounds while the UI waits, and of
-- the stress mode there is one thread by itself: its threads at the same time are left out. The
-- window of ncurses has a row and a column at least. A call of waitpid is a parameter of the
-- handler, and in the steps of Server.Reaping it does what its manual says. The example of
-- log_example.c, the test of login.c and the scripts are not part of the programs.
pub mod Base
pub mod GameState
pub mod Protocol
pub mod Dice
pub mod Raid
pub mod Security
pub mod Net
pub mod Handler
pub mod Log
pub mod Resources
pub mod Tls
pub mod Client
pub mod Server
pub mod Tests
