-- ===== src/Lib.antt =====
-- Joshua (a Python repository of four packages: shared, channels, core, gateway) is a personal
-- agent in three containers. `channels` takes messages in, `core` runs turns and scheduled tasks,
-- `gateway` guards the tools. This library models parts of its own logic and proves what makes
-- them right.
--
-- Parts, files and sources:
--   Base: shared notation, lists, Python dictionaries (insertion order), texts as code points.
--   Roster, Roster/Roles: the lookups of shared/joshua_shared/config.py (people_by_handle,
--   groups_by_chat, group_role).
--   Guard, Guard/*: channels/joshua_channels/guard.py. Guard is the state, check, refuse,
--   group_for and note_unconfigured are its methods; TokenBucket is _RateLimiter, Ring the deque
--   of recent refusals.
--   Delivery: FleetClient._request of shared/joshua_shared/http.py, core/joshua_core/delivery.py.
--   Tasks: the statements on the tasks table of core/joshua_core/store/repo.py.
--   Scheduler: core/joshua_core/scheduler.py over Tasks and Delivery; the turn is a parameter.
--   Turns, Turns/*: core/joshua_core/turns.py (SeenCache is Turns/Idempotency, TurnService is
--   Service with resolve, accept and stream), the rows of store/repo.py it writes, and
--   CoreClient.submit_turn of channels/joshua_channels/core_client.py.
--   Grants, Grants/*: UrlGrants of core/joshua_core/engine/url_grants.py, over the canonical form
--   as a parameter.
--   Access, Access/*: shared/joshua_shared/fleet_auth.py (identify_bearer, authenticate) and
--   gateway/joshua_gateway/person.py (resolve is attribute).
--   Cron, Cron/*: the cron expressions of core/joshua_core/engine/cron.py; a time is the number
--   of its minute on the wall clock, scan is the loop of compute_next_cron.
--   Netblock, Netblock/*: shared/joshua_shared/netblock.py over the parsers of Python (the record
--   Python); Policy holds the host, the entries and block_reason.
--   Paths, Paths/*: gateway/joshua_gateway/files_mcp/paths.py (roots, resolve); Confined holds
--   what a resolved path satisfies.
--   Usage, Usage/*: Usage and UsageMeter of core/joshua_core/engine/usage.py.
--   Pool, Pool/*: ConversationManager of core/joshua_core/engine/manager.py. Pool/Defs is its
--   state and its operations (get_or_create is _get_or_create up to its first wait, proceed what
--   the holder of the pool lock does next); Pool/Steps holds its turns, and step is one event;
--   Pool/Roles is _conversation_role and _conversation_group.
--   Writes, Writes/*: written_paths and failed_writes of the same file.
--   Stream, Stream/*: the frames of TurnService._sse in core/joshua_core/turns.py, and _iter_sse
--   and _parse_data of channels/joshua_channels/core_client.py.
--   Chunks, Chunks/*: core/joshua_core/memory/chunker.py. Chunks holds the regular expressions,
--   splitlines and _split_paragraphs (the loop is pack), Chunks/Markdown chunk_markdown: sections
--   is its loop over the lines, add_section its loop over the sections.
--   Events, Events/*: core/joshua_core/events.py (handle, named and channel_addressed are
--   EventService, Events/Skills is SkillRegistry), with resolve_channel of store/repo.py.
--   Ranking, Ranking/*: core/joshua_core/memory/ranking.py; pick is the last loop of rank_chunks.
--   Destinations, Destinations/*: channels/joshua_channels/destinations.py (resolve_rest is the
--   end of _resolve_ref), and resolve_ref of adapters/telegram.py; Destinations/Adapters has
--   resolve_ref of adapters/cli.py and adapters/imessage/adapter.py and register_adapters of
--   app.py, Destinations/Sound says whose a chat is; in core it is the parameter resolve of
--   Events.
--   Imessage, Imessage/*: channels/joshua_channels/adapters/imessage. Normalize is normalize.py,
--   over the values of Json; Forwarder is the producer side of forwarder.py with GuidDedupe.seen
--   (enqueue, flush_key, arm_timer, expire and flush_pending are its _enqueue, _flush_key,
--   _arm_timer, _flush_after and flush_pending, hold is Coalescer.add, take_next the get of the
--   worker), with the queue, what was taken from it and what was put into the cache as state;
--   Reconcile is reconcile.py, where tick returns or lets an error out; Merge also has a sequence
--   of arrivals; Counts, Places, Once, Runs, Joined, Merge, Ticks, Loss, Names and Forwardable
--   are proofs.
--   Deliver, Deliver/*: channels/joshua_channels/deliver.py (map_attachment is the body of the
--   loop of map_attachments, map_parts its checks after the first), over Destinations;
--   Deliver/Private is the proof on its files.
--   Files, Files/*: the tools of gateway/joshua_gateway/files_mcp/server.py that change a file
--   (checked runs the checks of a tool in their order, landed is the end of a write), with
--   journal_root and journal_entry_path of shared/joshua_shared/layout.py; FreeName is
--   _digest_name and _free_name; Below, Moves, Frame, Written and Found are proofs.
--
-- Bounds and fuel: the guard's clock counts microseconds and its token buckets count in units of
-- 1 / (60 * 10^6) token, so that the source's float arithmetic is exact. The retry loops recur on
-- the attempts left, which are three. The cron search has fuel for one step in each minute of its
-- window of 1500 days and one more, and each step goes a minute or more ahead. The search for a
-- free name has fuel for one more number than there are files.
--
-- Not modelled: the agent SDK and the model calls, the HTTP servers and the platform adapters'
-- I/O, SQL beyond the statements named above, the embedding index, the viewer's HTML. Log lines,
-- sleeps and metrics are left out everywhere.
pub mod Base
pub mod Roster
pub mod Guard
pub mod Delivery
pub mod Tasks
pub mod Scheduler
pub mod Turns
pub mod Grants
pub mod Access
pub mod Cron
pub mod Netblock
pub mod Paths
pub mod Usage
pub mod Pool
pub mod Writes
pub mod Stream
pub mod Chunks
pub mod Events
pub mod Ranking
pub mod Destinations
pub mod Imessage
pub mod Deliver
pub mod Files
