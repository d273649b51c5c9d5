-- ===== src/PktLine/Tests.antt =====
-- The line for a short text.
use gitus.Prelude.{codes, ◌≡◌, refl, true}
use gitus.PktLine.{read_pkt_line, line}

flush_line : read_pkt_line (codes "0000next") ≡ line true (codes "0000") (codes "next")
unfolding read_pkt_line
flush_line = refl
