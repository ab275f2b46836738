-- ===== src/Table/Delivered/Hellos.antt =====
-- What the inspection of each packet of a TLS flow reports.
use hyper_dpi.Tls.{SniResult}
use hyper_dpi.Tls.Hello.{Hello}
use hyper_dpi.Tls.Hello.{Holds as HoldsBytes}
use hyper_dpi.Table.{Status, pending, ready, no_sni}

-- The status that a definite result of the extraction comes to.
abbrev pub status_of : SniResult → Status
status_of SniResult.pending = pending
status_of SniResult.not_present = no_sni
status_of (SniResult.found text) = ready text
