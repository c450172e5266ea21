-- ===== src/FastPath/Inspection.antt =====
-- What an inspection of the payload may change: the classification of the packet's connection, and
-- counters. It reads inside the packet only.
use multi_threaded_dpi_engin.Base.{
  ℕ, ◌+◌, ◌≤◌, Bool, true, false, not, ◌&&◌, ◌||◌, ◌==◌, ltb, leb, [], Option, none, some, ◌≡◌,
  refl, ◌∙◌, arith, Bytes, length, Ensures, bind-Ensures, if-Ensures, Bool-cases, inl, inr,
}
use multi_threaded_dpi_engin.Types.App.{AppType, http, https, dns}
use multi_threaded_dpi_engin.Types.Classify.{sni_to_app_type}
use multi_threaded_dpi_engin.Types.{PacketJob}
use multi_threaded_dpi_engin.Inspect.Tls.Safety.{extract_inside}
use multi_threaded_dpi_engin.Inspect.Http.Safety.{extract_http_inside}
use multi_threaded_dpi_engin.Inspect.Dns.Safety.{extract_query_inside}
use multi_threaded_dpi_engin.Tracker.{is_blocked, classify_connection}
use multi_threaded_dpi_engin.FastPath.{
  Visit, classify, count_hit, found_sni, found_host, try_extract_sni, try_extract_http_host,
  classify_by_port, found_domain, inspect_dns, inspect_payload,
}

-- The payload lies in the packet.
abbrev pub InPacket : PacketJob → Type 0
InPacket job = job.payload_offset + job.payload_length ≤ length job.packet

pub record Keeps (v w : Visit) : Type 0 where
  pub same_tuple : w.conn.tuple ≡ v.conn.tuple
  pub same_table : w.fp.tracker.connections ≡ v.fp.tracker.connections
  pub same_limit : w.fp.tracker.max_connections ≡ v.fp.tracker.max_connections
  pub same_processed : w.fp.packets_processed ≡ v.fp.packets_processed
  pub same_forwarded : w.fp.packets_forwarded ≡ v.fp.packets_forwarded
  pub same_dropped : w.fp.packets_dropped ≡ v.fp.packets_dropped
  pub not_blocked : is_blocked v.conn.state ≡ false → is_blocked w.conn.state ≡ false

pub Keeps-refl : (v : Visit) → Keeps v v
Keeps-refl v = record {
  same_tuple = refl;
  same_table = refl;
  same_limit = refl;
  same_processed = refl;
  same_forwarded = refl;
  same_dropped = refl;
  not_blocked = λ h. h;
}

pub Keeps-trans : {u v w : Visit} → Keeps u v → Keeps v w → Keeps u w
Keeps-trans k l = record {
  same_tuple = l.same_tuple ∙ k.same_tuple;
  same_table = l.same_table ∙ k.same_table;
  same_limit = l.same_limit ∙ k.same_limit;
  same_processed = l.same_processed ∙ k.same_processed;
  same_forwarded = l.same_forwarded ∙ k.same_forwarded;
  same_dropped = l.same_dropped ∙ k.same_dropped;
  not_blocked = λ h. l.not_blocked (k.not_blocked h);
}

classify-Keeps : (app : AppType) (name : Bytes) (v : Visit) → Keeps v (classify app name v)
unfolding classify classify_connection
classify-Keeps app name v = ground arith

count_hit-Keeps : (hit : Bool) (v : Visit) → Keeps v (record v { fp = count_hit hit v.fp })
unfolding count_hit
count_hit-Keeps true v = ground arith
count_hit-Keeps false v = Keeps-refl v

found_sni-Keeps : (r : Option Bytes) (v : Visit) → Keeps v (found_sni r v).1
unfolding found_sni
found_sni-Keeps none v = Keeps-refl v
found_sni-Keeps (some name) v =
    let counted : Visit = record v {
      fp = record v.fp { sni_extractions = v.fp.sni_extractions + 1 };
    } in
    let start : Keeps v counted = ground arith in
    Keeps-trans start
      (Keeps-trans (classify-Keeps (sni_to_app_type name) name counted) (count_hit-Keeps _ _))

found_host-Keeps : (r : Option Bytes) (v : Visit) → Keeps v (found_host r v).1
unfolding found_host
found_host-Keeps none v = Keeps-refl v
found_host-Keeps (some host) v =
    Keeps-trans (classify-Keeps (sni_to_app_type host) host v) (count_hit-Keeps _ _)

classify_by_port-Keeps : (port : ℕ) (v : Visit) → Keeps v (classify_by_port port v)
unfolding classify_by_port
classify_by_port-Keeps port v = elim (Bool-cases (port == 80)) [
  | inl web ↦ rw web (classify-Keeps http [] v)
  | inr other ↦ rw other (elim (Bool-cases (port == 443)) [
    | inl tls ↦ rw tls (classify-Keeps https [] v)
    | inr rest ↦ rw rest (Keeps-refl v)
  ])
]

found_domain-Keeps : (r : Option Bytes) (port : ℕ) (v : Visit) → Keeps v (found_domain r port v)
unfolding found_domain
found_domain-Keeps none port v = classify_by_port-Keeps port v
found_domain-Keeps (some domain) port v = classify-Keeps dns domain v

module _ (job : PacketJob) (inside : InPacket job) where
  abbrev After : Visit → Bool × Visit → Type 0
  After v r = Keeps v r.1

  try_extract_sni-Keeps : (v : Visit) → Ensures (After v) (try_extract_sni job v)
  unfolding try_extract_sni
  try_extract_sni-Keeps v =
      let (r, e, _) = extract_inside job.packet job.payload_offset job.payload_length inside in
      if-Ensures (After v) (not (job.tuple.dst_port == 443) && ltb job.payload_length 50) _ _
        (λ _. Keeps-refl v)
        λ _.
          if-Ensures (After v)
            (leb (length job.packet) job.payload_offset || job.payload_length == 0) _ _
            (λ _. Keeps-refl v) λ _. rw e (found_sni-Keeps r v)

  try_extract_http_host-Keeps : (v : Visit) → Ensures (After v) (try_extract_http_host job v)
  unfolding try_extract_http_host
  try_extract_http_host-Keeps v =
      let (r, e, _) = extract_http_inside job.packet job.payload_offset job.payload_length inside in
      if-Ensures (After v) (not (job.tuple.dst_port == 80)) _ _ (λ _. Keeps-refl v)
        λ _.
          if-Ensures (After v)
            (leb (length job.packet) job.payload_offset || job.payload_length == 0) _ _
            (λ _. Keeps-refl v) λ _. rw e (found_host-Keeps r v)

  inspect_dns-Keeps : (v : Visit) → Ensures (Keeps v) (inspect_dns job v)
  unfolding inspect_dns
  inspect_dns-Keeps v =
      let (r, e, _) =
        extract_query_inside job.packet job.payload_offset job.payload_length inside in
      if-Ensures (Keeps v) (job.tuple.dst_port == 53 || job.tuple.src_port == 53) _ _
        (λ _. rw e (found_domain-Keeps r job.tuple.dst_port v))
        λ _. classify_by_port-Keeps job.tuple.dst_port v

  pub inspect_payload-Keeps : (v : Visit) → Ensures (Keeps v) (inspect_payload job v)
  unfolding inspect_payload
  inspect_payload-Keeps v =
      if-Ensures (Keeps v) (job.payload_length == 0 || leb (length job.packet) job.payload_offset) _
        _ (λ _. Keeps-refl v)
        λ _.
          bind-Ensures (After v) (Keeps v) (try_extract_sni job v) _ (try_extract_sni-Keeps v)
            λ r k.
              if-Ensures (Keeps v) r.0 _ _ (λ _. k)
                λ _.
                  bind-Ensures (After r.1) (Keeps v) (try_extract_http_host job r.1) _
                    (try_extract_http_host-Keeps r.1)
                    λ s l.
                      if-Ensures (Keeps v) s.0 _ _ (λ _. Keeps-trans k l)
                        λ _. later (inspect_dns job s.1) (Keeps-trans k l) (inspect_dns-Keeps s.1)
    where
      later : {u : Visit} (m : Option Visit) → Keeps v u → Ensures (Keeps u) m → Ensures (Keeps v) m
      later none k e = e
      later (some w) k e = Keeps-trans k e
