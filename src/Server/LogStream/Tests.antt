-- ===== src/Server/LogStream/Tests.antt =====
-- internal/server/websocket.go: frames of a concrete log.
use dockation.Prelude.{◌≡◌, refl, [], ◌∷◌, ◌++◌, arith}
use dockation.Server.LogStream.{strip_docker_log_header, strip_loop}
use dockation.Server.LogStream.Frames.{Frame, encode_all, cut, strip-encode_all, strip_cut}

abbrev out : Frame
out = record { stream_type = 1; payload = 104 ∷ 105 ∷ 10 ∷ [] }

abbrev err : Frame
err = record { stream_type = 2; payload = 33 ∷ 10 ∷ [] }

plain : strip_docker_log_header (104 ∷ 105 ∷ []) ≡ 104 ∷ 105 ∷ []
unfolding strip_docker_log_header strip_loop
plain = refl

strip-encode_all_example :
    strip_docker_log_header (encode_all (out ∷ err ∷ []) ++ 1 ∷ 0 ∷ [])
    ≡ 104 ∷ 105 ∷ 10 ∷ 33 ∷ 10 ∷ []
strip-encode_all_example =
    strip-encode_all out (err ∷ []) (1 ∷ 0 ∷ [])
      ((omega arith, omega arith), ((omega arith, omega arith), tt)) (omega arith)

strip_cut_example :
    strip_docker_log_header (encode_all (err ∷ []) ++ cut out 2)
    ≡ 33 ∷ 10 ∷ 1 ∷ 0 ∷ 0 ∷ 0 ∷ 0 ∷ 0 ∷ 0 ∷ 3 ∷ 104 ∷ 105 ∷ []
strip_cut_example =
    strip_cut (err ∷ []) out 2 ((omega arith, omega arith), tt) (omega arith, omega arith)
      (omega arith)
