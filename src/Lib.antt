-- ===== src/Lib.antt =====
-- A model of the remote-diagnostics platform: the tunnel that carries J2534 calls between a vendor's
-- diagnostic software and a vehicle interface, and the worker that runs a diagnostic session.
--
-- The parts and how they interact. The virtual DLL sends J2534 requests as frames to the proxy server,
-- which forwards them over an authenticated tunnel to the client at the vehicle and caches some of the
-- responses. On the same machine a worker holds one business session at a time and runs one exclusive
-- operation for it; the session manager beside it routes a session to a backend of the registry, asks
-- for decisions, and reports events to a queue of bounded length. Worker nodes are leased from a pool,
-- one session each, and the recorded pages of the desktop application are a graph to plan routes in.
--
-- Files and code:
--   Base       exceptions as values (Result), Python's dict (Dict), lists over native numbers, sorted
--              with a key (Sorting) and the order of texts (Order)
--   Wire       vci_proxy/protocol.py. Pack is struct.pack and struct.unpack of big-endian words;
--              Frame is Message, its header and encode/decode_header; Requests, Responses, Messages,
--              Filters, Ioctl, Auth and Text are the methods of ProtocolEncoder and ProtocolDecoder,
--              under their names, by the shape of the body
--   Cache      vci_proxy/cache_read_msgs.py, cache_ioctl.py, cache_vbatt.py and
--              cache_filter_dedup.py, one module each, the methods under their names
--   Proxy      Caches is _try_serve_cached, _invalidate_caches and _record_in_caches of
--              vci_proxy/reverse_server.py; Auth is vci_proxy/auth.py with _is_replayed_auth,
--              _validated_body_length, _read_frame_body and _authenticate_vci;
--              StepFlow is vci_proxy/diagnostics_step_flow.py, what the client's window offers;
--              Tunnel is TunnelQualityTracker of vci_proxy/tunnel_quality.py
--   Session    Worker is the session bindings and the exclusive operation of WorkerRuntime in
--              diagnostic_platform/runtime/worker_runtime.py; Registry is BackendRegistry of
--              diagnostic_platform/contracts.py; State and Orchestrator are the classes of
--              diagnostic_platform/session_models.py and SessionOrchestrator of
--              diagnostic_platform/session_orchestrator.py, the methods under their names; Lifecycle is
--              start_business_session of diagnostic_platform/runtime/session_lifecycle.py with the
--              bindings of session_state.py, over the worker and the manager
--   Nodes      diagnostic_platform/node_allocation.py: Inventory is InMemoryNodeInventory, Allocator
--              is HotPoolAllocator with its lease store, Readiness is poll_once of
--              BootingNodeReadinessMonitor; Run is runs of all of them; Catalog is the zone catalog with
--              its resolvers of launch specifications and of routes
--   Routes     backends/gds2/route_graph.py: Search is find_path, Plans is plan_to_action and
--              plan_to_page, Matching is match_snapshot_to_node_details
--   Streaming  Buffer is DiagnosticBuffer of src/streaming/diagnostic_buffer.py, with initial_state and
--              timeline of get_delta_payload in Payload
--   */Tests    runs of the theorems at concrete inputs
--
-- State and effects. An object's attributes are the fields of a record; a method takes the record and
-- returns the new one with its result. A method that raises returns err with the exception's class; a
-- state that is changed before a raise is returned beside the result. Locks and logging are left out:
-- each method is one step. Bytes are lists of native numbers; 32-bit fields are checked as struct.pack
-- checks them. Clock readings are arguments: whole milliseconds in the caches, whole seconds in the
-- authentication and the sessions; round trips are whole thousandths of a millisecond. Loops are
-- structural, on the list or on the count that the body announces. Only the search of a path runs on
-- fuel, one more than the graph has edges: each turn takes a node from the queue, and a node enters it
-- once, by an edge or as the start, which the theorem on find_path shows to be enough.
--
-- The manager returns its state also with a raise, since some raises keep changes. An option of a
-- decision is given by what submit_decision reads in its id, and an event by its payload.
--
-- Parameters: the random identifiers of sessions, decisions and leases are arguments; the methods that strip
-- and fold texts, the normalisation of brands built from them, HMAC-SHA256 and SHA-256 are any
-- functions; so is the probe of a booting node; UTF-8 is a codec whose decoding inverts its encoding. The stream of a client is the frames that arrive and whether the writes succeed.
--
-- Not modelled: the asynchronous loops of the server and of the client, the J2534 driver, the HTTP API,
-- the desktop user interface, the automation of GDS2 and the calls of the AI diagnosis, which are input and output
-- around other programs. Of WorkerRuntime, the construction of backends and the event hub are left out, and
-- of the nodes their files, the EC2 client and the HTTP probe.
pub mod Base
pub mod Wire
pub mod Cache
pub mod Proxy
pub mod Session
pub mod Nodes
pub mod Routes
pub mod Streaming
