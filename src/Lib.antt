-- ===== src/Lib.antt =====
-- AKARI proxy: a web proxy that fetches pages over its own UDP protocol. A browser talks to the
-- web proxy (py/akari/web_proxy/router.py), which asks the content filter
-- (py/local_proxy/content_filter.py), then sends one request datagram with the UDP client
-- (py/akari/udp_client.py). The remote proxy (py/akari/remote_proxy/handler.py) fetches the page
-- and answers with numbered datagrams; the client puts them together, asks again for what is
-- missing (NACK) and gives up after a timeout. All datagrams are built and taken apart by the
-- native module akari_udp_py (crates/).
--
-- Which file models which part:
--   Prelude: lists over the native numbers, dicts as association lists (get, put, pop), sorting,
--     `str` as the list of its code points, decimal numbers, and in Prelude/Pattern a matcher for
--     the regular expressions of the router. Utf8: `str.encode` and
--     `bytes.decode(errors="replace")`. Url: what is used of urlsplit and PurePosixPath, and in
--     its parts quote, unquote, parse_qs, urlencode, urlunsplit and urljoin. Exceptions: the
--     exceptions as values.
--   Wire: a Datagram is the call of an encoder of akari_udp_py with its arguments, a Packet is
--     the dict that its decoders return. `decode` gives the packet of a datagram, `wire_len` its
--     length. Bytes, HMAC and AEAD are not modelled: a receiver is taken to have the sender's key.
--   Handler: handler.py. Sizes (_payload_cap and its like), Split (_split_body), Headers
--     (encode_header_block, _shrink_headers, _encode_header_block_limited), Respond
--     (_encode_success_datagrams, _encode_success_datagrams_v3), Nack (_handle_nack, _handle_ack),
--     HttpCache (HTTP_CACHE), Requests (handle_request, handle_request_async). The module's
--     globals are the record State; each function takes the state and returns it. The readings of
--     time.time() while one request is handled are the record Clock, in microseconds.
--   Client: udp_client.py. Config (__init__), Headers (decode_header_block), Accumulator
--     (ResponseAccumulator), Missing (the bitmaps), Exchange (the local variables and what is
--     sent), Asking (time-outs, NACKs and ACKs), Loop (send_request), RustBacked
--     (RustBackedAkariUdpClient). One iteration of the loop is `step`, on an Event that says how
--     recvfrom ended; `run` goes through a list of events, so it ends with `again` where they run
--     out first. The local variables are the record Exchange, which also keeps the datagrams that
--     were sent.
--   Server: py/akari/udp_server.py (handle_next, the payload limit by the MTU); Server/Async:
--     the datagrams of py/akari/remote_proxy/async_server.py and the loop of server.py beside it;
--     Server/Pool: its ReusableSessionPool, whose life is a step relation. Fetcher: fetch and, in
--     Fetcher/Async, fetch_async of py/akari/remote_proxy/http_client.py.
--   Recovery: the client's NACK and, in Recovery/Acks, its ACK against the server's kept answer.
--     Fetching: a request of the client through the server and back. Browsing: from the link of a
--     page through the router, the client and the server to the page it names.
--   ContentFilter: content_filter.py. Router: router.py, its parameters (Router/Parameters),
--     message ids (Router/Ids), _execute_proxy up to _raw_response (Router/Proxy), the filters of
--     _raw_response (Router/Responses), the rest of it (Router/Shaping), the rewriters of HTML,
--     CSS and JavaScript (Router/Rewriting), _to_proxy_url and _merge_outer_params_into_url
--     (Router/Links), the static files (Router/Static), the filter settings that the browser reads
--     and changes (Router/Settings), and handle_get and handle_post with the proxying that they
--     call (Router/Site). Router/Front: what py/akari/web_proxy/http_server.py sends to the
--     browser.
--   Config: the load_config functions of py/akari/remote_proxy/config.py,
--     py/akari/web_proxy/config.py and py/local_proxy/config.py, from the parsed TOML document on.
--   Tests: every theorem at a concrete input; Tests/Fixtures holds what those of the client
--     share.
--
-- Parameters: the HMAC-SHA256 function, the fetch where the handler uses it, what urlopen and the
-- session of aiohttp do where Fetcher uses them, the client's send_request where the router uses
-- it, and what the native client answers. The router is also given the decompressors, which code
-- points from 128 on are letters, the script that _rewrite_html_to_proxy puts behind every page,
-- the texts that json.loads reads, the files of the static directory and the types that mimetypes
-- guesses; the configuration is given the floating-point numbers, the environment and the key
-- files. The asynchronous server is given the two decoders of the native module, and the theorem
-- that compares it with the synchronous one takes as a hypothesis that decode_packet_auto_py
-- accepts a datagram of version 3 exactly when decode_packet_v3_py does, with the same packet: it
-- tries that decoder first, and its other one refuses version 3.
--
-- Bounds: decode_loop of Client/Headers runs on fuel, the length of the block, of which each
-- iteration takes at least one byte; decimal and hexadecimal numbers are written on fuel, the
-- number plus one, which is more than it has digits; a substitution by a pattern runs on the
-- length of the text as fuel, and each pattern takes one character at least, so that more fuel
-- changes nothing (Router/Rewriting/Patterns). No other function does. Message ids wrap at 2^32 as
-- written in the source; the counters of the loop are Python integers, which have no bound.
--
-- Not modelled: the argument ranges of the native encoders (a u16 or u8 that overflows raises
-- there), but for those of the answers before version 3, with OverflowError and ValueError, and
-- for a NACK bitmap over 255 bytes, which is refused, locks (each modelled function runs alone, as
-- under its lock), log output, socket options, `str.lower` above U+00FF (header fields are
-- Latin-1), ValueErrors of urlsplit, case-insensitive lookup in the headers of a request, symbolic
-- links in the static directory, quoted representations in messages. The tasks of the asynchronous
-- server run one after another, in the order of their datagrams. Command lines, scripts and load
-- tests, and the Rust and Dart code are outside this development.
mod Prelude
pub mod Utf8
pub mod Exceptions
pub mod Wire
pub mod Handler
pub mod Client
pub mod Recovery
pub mod Url
pub mod Config
pub mod ContentFilter
pub mod Router
pub mod Server
pub mod Fetcher
pub mod Fetching
pub mod Browsing
pub mod Tests
