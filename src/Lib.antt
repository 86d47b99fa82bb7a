-- ===== src/Lib.antt =====
-- vncc: the audio ring, the media callbacks, the framing of the control connections, the life of a
-- connection, the requests to the device and to the web server, the answers and the configuration,
-- the web socket client, the drawing surface and the renderer, the windows of the client and of the
-- player, and the text encodings of the vncc client.
--
-- The program shows a remote device: a video and audio stream is decoded and played, and user input
-- goes back over TCP connections. What is modelled here, by part:
--   * Ring, with Ring/: `ring_buf_t` of erender/eAVRender.h and `ring_buf_create`, `ring_buf_realloc`,
--     `ring_buf_clr`, `ring_buf_len`, `ring_buf_remain`, `ring_buf_put` and `ring_buf_get` of
--     erender/eAVRender.cpp. A ring is a record, a counter is its 32-bit pattern.
--   * Audio, with Audio/: `writeAudioRingBuf`, `readAudioRingBuf`, `audio_buf_len`, the start-up cache
--     of `audio_decode` and `sdlAudioCallBackFunc` of erender/eAVRender.cpp, as the decoder thread and
--     the sound card use the ring. Each call that takes the lock is one step.
--   * Wire, with Wire/: `SendData` and `do_send_cb` of common/eAVClient.cpp, which write a packet, and
--     `RecvData` of erender/econtroltrans.cpp, which takes packets out of the bytes that come in pieces.
--   * Client, with Client/: the callbacks of common/eAVClient.cpp on the event loop, as a step relation.
--   * Control, with Control/: `SetConnState`, `RemoveConnState`, `SendTcpData` and `RemoveCB` of
--     erender/econtroltrans.cpp, which run as tasks of one thread.
--   * Media, with Media/: `videoCB`, `audioCB`, `msgCB`, `isIFrame`, `setbitrate` and `DecodeVideo` of
--     erender/eAVRender.cpp; what they do to the connections goes to Control's log.
--   * Proto, with Proto/: the requests of erender/ePrivateProto.cpp and the user's input that
--     erender/econtroltrans.cpp sends with them.
--   * Web, with Web/: `url_encode` of eWebRequest.cpp.
--   * Instructions, with Instructions/: the structs of common/eInstructions.h, with their `from_json`
--     and `to_json` of common/eInstructions.cpp and the macros of base/jsonext.hpp. Tables/ holds one
--     description of the members and one of the names that are read for each struct; a value of a
--     struct is a tuple whose type is computed from its members.
--   * Hex, with Hex/: the hexadecimal digests of base/misctool.cpp.
--   * Sysinit, with Sysinit/: the methods of `_SYSINIT_INFO` in common/eInstructions.h.
--   * Post, with Post/: eWebRequest.cpp. The methods of `eWebRequest` are the constructors of six data
--     types and the clauses of six functions, in the order of the file; Content is
--     `BuildPostContent`, Http `HttpsPostContent` with its callbacks, Answer
--     `briage_HttpsPostContent` and `briage_DownloadFile`. Sign holds the server that checks a form,
--     Progress `my_progress_callback`.
--   * Socket, with Socket/: eWebScoketCli.cpp as a step relation.
--   * Surface, with Surface/: `InitSurface`, `GetDisplay` and `CleanContext` of
--     common/evideorender.cpp.
--   * Decode, with Decode/: `video_decode` and `callocAVFrame` of erender/eAVRender.cpp.
--   * Draw, with Draw/: the tasks of `eVideoRender` of common/evideorender.cpp on the drawing
--     thread. Squares is `Generate_Square_array`, Setup `Init` and `Destroy`, Loop the rest and the step
--     relation, Reads what a drawing reads.
--   * Docker, with Docker/: the tool bar of erender/edockerwidget.cpp, its slots in
--     erender/mainwindow.cpp, and `stringSplit` of base/misctool.cpp (Devices).
--   * Player, with Player/: the events of erender/mainwindow.cpp.
--   * Rpc, with Rpc/: erpcmanager.cpp and `ConnectSrv` of erender/mainwindow.cpp.
--   * Launch, with Launch/: `action_Login` and `RunPlayer` of mainwindow.cpp, `main` of
--     erender/main.cpp, `resizeEvent` of erender/mainwindow.cpp, `RemoteControlRun` of
--     erender/econtroltrans.cpp and `Connect` of common/eAVClient.cpp, one after the other.
--   * Base64, with Base64/: base/algorithm/Base64.cpp.
--   * Base, with Base/: Boolean tests, lists and block copies that these share.
--
-- Memory behind a pointer is a list of bytes, a null pointer is `none`. libevent, SDL and the
-- allocator are parameters: whether a connect starts, a timer is added or a piece is accepted,
-- what mixing does, what a new buffer holds; so are the JSON library, FFmpeg, EGL, the names that
-- OpenGL gives, the timers of Qt, `%d`, `atoi` and `inet_addr`, the ports that are in use, what curl
-- does in a transfer, and SHA-256 and MD5. Fuel: the transfer of `ring_buf_realloc` needs two rounds,
-- `RecvData` one round for each byte, `do_send_cb` one more than the length of the packet, and the
-- search for a port one for each port; that these are enough is part of what is stated of them.
--
-- Not modelled: the decoders themselves, shaders and matrices, the layouts and toasts of Qt, JSON
-- text, the threads that an executor runs requests on, and the copies of other projects under
-- base/ and third_party/.
pub mod Draw
pub mod Launch
pub mod Rpc
pub mod Player
pub mod Docker
pub mod Base
pub mod Ring
pub mod Audio
pub mod Wire
pub mod Client
pub mod Control
pub mod Base64
pub mod Media
pub mod Web
pub mod Proto
pub mod Instructions
pub mod Sysinit
pub mod Post
pub mod Socket
pub mod Surface
pub mod Hex
pub mod Decode
