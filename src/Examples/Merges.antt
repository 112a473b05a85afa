-- ===== src/Examples/Merges.antt =====
-- internal/agg/correlate.go: two lists of suspects with hop 3 in common.
use dropline.Prelude.{List, [], ◌∷◌, ◌≡◌, refl}
use dropline.Prelude.Int.{ℤ, pos}
use dropline.Agg.Correlate.{SuspectHop, hop_loss, rtt_spike}
use dropline.Agg.Merge.{
  find_ttl, put_ttl, with_source, joint, add_icmp, folded, add_tcp, by_ttl, merge_suspects,
}
use dropline.Agg.Merge.Joint.{verdict, merge_suspects-find}
use dropline.Examples.Numbers.{numbers}

abbrev pub icmp : List (SuspectHop ℤ)
icmp =
    (record { ttl = pos 2; confidence = pos 60; evidence = hop_loss 6 10; source = "icmp" })
    ∷ (record { ttl = pos 3; confidence = pos 70; evidence = hop_loss 7 10; source = "icmp" })
    ∷ []

abbrev pub tcp : List (SuspectHop ℤ)
tcp =
    (record {
      ttl = pos 3;
      confidence = pos 90;
      evidence = rtt_spike (pos 40) 9 10;
      source = "tcp";
    })
    ∷ []

-- The order of the map here is that of the list.
merge_suspects-find_example :
    find_ttl (pos 3) (merge_suspects numbers (λ m. m) icmp tcp)
    ≡ verdict numbers (find_ttl (pos 3) icmp) (find_ttl (pos 3) tcp)
merge_suspects-find_example =
    unfold by_ttl add_icmp add_tcp put_ttl find_ttl folded joint with_source in
    merge_suspects-find numbers (λ m. m) (pos 3) icmp tcp (refl, (refl, tt)) (refl, tt)
      (refl, (refl, tt)) (λ u. refl)
