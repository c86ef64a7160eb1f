-- ===== src/Lib.antt =====
-- Trades, parties, chat channels, what clients see, containers, tiles, experience, the login queue,
-- the scheduler, messages and property streams of the Darghos game server, a fork of The Forgotten
-- Server 0.4. The server is one process: connections read messages, decrypt them (src/protocol.cpp,
-- src/networkmessage.cpp) and put tasks on the dispatcher's queue (src/dispatcher.cpp); the scheduler
-- (src/scheduler.cpp) puts tasks there when their time comes. The dispatcher's thread calls the tasks
-- one after the other, and these are the handlers of src/game.cpp, which work on players and on what
-- they share, such as a party (src/party.cpp), a trade, or a chat channel (src/chat.cpp). What
-- happens on the map is sent to the players who stand near (src/map.cpp) and to the clients that see
-- it (src/protocolgame.cpp). A player who logs in while the server is full stands in the login queue
-- (src/waitlist.cpp).
--
-- Files, and the code that they model:
--   Base, with its children: tests, lists, words of 8, 16 and 32 bits, sets of numbers without
--     repetition. They model no code.
--   Position: src/position.h. Position/Laws: order, range and arithmetic. Position/Directions: the steps
--     and turns of src/tools.cpp.
--   WaitList: src/waitlist.h and src/waitlist.cpp, one function per method; `login` is
--     WaitingList::login, with `cleanup`, `retry` and `enqueue` for its parts. The queue is a list in
--     the order of the slots; the clock, the configuration and the player are arguments. Proofs in
--     WaitList/Find, Outcome, Fairness, Order and Unique.
--   Party: the data of src/party.h, and the pointers of src/player.cpp. Party/Shared and Party/Methods:
--     the methods of src/party.cpp. Party/Handlers: Game::playerInviteToParty,
--     playerJoinParty, playerRevokePartyInvitation, playerPassPartyLeadership, playerLeaveParty and
--     playerSharePartyExperience of src/game.cpp. A `World` is the store: players by identifier, and
--     parties by an address, where a deleted party is none. So aliasing is explicit: a player's pointer
--     may lead to an address where no party is left. Proofs in Party/Inv and Party/Safety (the
--     invariant of the store), Party/SelfInvite, Party/Sharing and Party/Points.
--   Network: src/networkmessage.h and src/networkmessage.cpp, a message being a store of bytes with two
--     16-bit words. Network/Strings: reads and writes. Network/Xtea: the cipher of src/protocol.cpp on
--     32-bit words; Network/Xtea/RoundTrip: its inverse.
--   Scheduler: src/scheduler.h, src/scheduler.cpp, src/dispatcher.h and src/dispatcher.cpp, each locked
--     region being one step on a record. Scheduler/Events and Scheduler/Thread: the events, and the
--     step of the scheduler's thread. Scheduler/Dispatch: the dispatcher. Scheduler/Runs
--     and Turns: sequences of requests, and what the thread does in the end.
--   PropStream: the property streams of src/fileloader.h, by the methods' names. PropStream/RoundTrip
--     and Fields: reading what was written. PropStream/Bounds and Buffer: the ends of the bytes and of
--     the buffer.
--   FileLoader: the node format of src/fileloader.cpp and src/fileloader.h, without the cache; a file is
--     its bytes. FileLoader/Escape: the escape bytes, and the buffer. FileLoader/Trees and RoundTrip:
--     the parser on what the writer writes. FileLoader/Fuel: the fuel.
--   Container: the items in containers, from src/container.cpp and src/container.h, getTopParent of
--     src/thing.cpp, and the limit of src/depot.cpp. A `Store` maps the address of a thing to its kind,
--     count, parent and list of items, so that the lists and the parents are pointers that have to
--     agree. Container/Iterator: ContainerIterator, and the two loops over it. Container/Queries:
--     __queryAdd, __queryMaxCount and __queryRemove; Container/Destination: __queryDestination.
--     Container/Changes: __addThing, __replaceThing, __removeThing and their like. Proofs in
--     Container/Inv and Inside (the shape of the store), Ancestors (the loops along the parents),
--     Breadth (the iterator against a recursion), Room, DepotLimit and Destination.
--   Experience: getExpForLevel of src/player.h, addExperience and removeExperience of src/player.cpp.
--     Experience/Skills: addSkillAdvance and addManaSpent. Proofs in Experience/Table, Levels, Losses and
--     Advances.
--   Tile: the things on a tile and their order, from src/tile.h and src/tile.cpp: __getIndexOfThing and
--     __getThing. Tile/Changes: __addThing, __internalAddThing and __removeThing, one function for each
--     of their branches. Proofs in Tile/Order (the shape, and the whole order as one list), Index,
--     Removing, Leaving, Adding, Coming and Arrival.
--   Area: the areas of spells, from src/combat.h and src/combat.cpp: createArea, copyArea without the
--     rotations, and setupExtArea. Proofs in Area/Copies.
--   Trade: the trades between two players. Trade/Requests: Game::playerRequestTrade and internalStartTrade
--     of src/game.cpp, and the trade that TalkAction::houseSell of src/talkaction.cpp starts. Trade/Accepting: playerAcceptTrade, internalCloseTrade, playerCloseTrade and the
--     choice of the item in playerLookInTrade. Trade/Changes: checkTradeState of src/player.cpp and its
--     callers there, onCreatureMove, onCreatureDisappear. A `World` holds the players, the map of the items
--     on offer, and the references to them. Proofs in Trade/Inv (the invariant, and what it means that a
--     trade ends), Starting, Asking, Forgetting, Ending, Transfer, Motion, Safety and Outcome.
--   Chat: the channels of src/chat.h and src/chat.cpp. Chat/Users: users, invitations, and who is taken
--     off. Chat/Handlers: createChannel of private channels, and playerCreatePrivateChannel,
--     playerChannelInvite, playerChannelExclude, playerOpenChannel and playerCloseChannel of src/game.cpp.
--     Proofs in Chat/Inv, Kept, Comings, Leaving, Opening and Safety, where a step relation says what may
--     happen.
--   Sight: canSee and checkCreatureAsKnown of src/protocolgame.cpp; Sight/Spectators: getSpectators of
--     src/map.cpp, over leaves that are linked as those of the tree. Proofs in Sight/Known, Found (the
--     loops) and Audience (what is seen is found).
--   A file Tests beside a component holds concrete inputs.
--
-- Bounds: machine words wrap around where the source's do (`% 2 ^ w`). The positions in a file are
-- plain numbers. The parser of nodes takes fuel for its calls and for the turns of its loops, since
-- it may call itself on what a call has left; one more than twice the number of the bytes is enough
-- for any file, since each call and turn reads a byte, and three for each node for what the writer
-- writes. The loops along the parents of a container and over all that is in it take fuel too, as the
-- pointers of a store might form a circle; the number of the parents, and of the items, is enough.
-- Health and mana are patterns of 32 bits. The buffer of the file loader starts with 1024 bytes and
-- grows once for a node, so that 2048 bytes of properties always fit. Experience below what level 500000 takes is far from any wrap around, and the loop over the levels
-- takes that many turns at most. The two loops over the leaves of the map take fuel; six turns of
-- each are enough for the ranges of the viewport. The other loops run over lists, over the 32 rounds
-- of the cipher, or over the bytes that are asked for.
--
-- Not modelled: Party::shareExperience, which hands out doubles; the messages, icons and shields that
-- are sent to the clients, which change no state here; the loops on sockets; the layout of C structs;
-- the item encodings of NetworkMessage, which need the item table; the size checks around the cipher;
-- the cache of the file loader; how traded items are moved, of which only the calls and their answers
-- are written down; the tests of the command for selling a house; the
-- second getSpectators of src/map.cpp, which only reads the cache; clones of players in the chat; the file of channels, talking and the guild commands; the weights of containers
-- and their notifications. The rest of the server (paths, creatures, item types, combat, scripts,
-- persistence) is left out.
pub mod Base
pub mod Position
pub mod WaitList
pub mod Party
pub mod Network
pub mod Scheduler
pub mod PropStream
pub mod FileLoader
pub mod Container
pub mod Experience
pub mod Tile
pub mod Area
pub mod Trade
pub mod Sight
pub mod Chat
