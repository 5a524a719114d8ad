-- ===== src/Tests/Bounds.antt =====
-- A read of three bytes from a disk of the host whose packets have two.
use nusbip.Common.{
  ℕ, ◌%◌, ◌^◌, ◌≤◌, ◌<◌, [], ◌∷◌, some, true, length, replicate, length-replicate, ok, arith, ◌≡◌,
  refl,
}
use nusbip.Protocol.Header.{HeaderBasic}
use nusbip.Endpoint.{direction}
use nusbip.Device.{UsbDevice, find_ep, find_interface, find_endpoint}
use nusbip.Device.Names.{default_device}
use nusbip.Device.Pool.{get}
use nusbip.Device.Descriptors.{
  configuration_descriptor, interface_descriptors, endpoint_descriptors,
}
use nusbip.Device.Bounds.{DescriptorsFit}
use nusbip.Response.{Response}
use nusbip.Host.Effects.{
  Nusb, Call, Answer, answered, failed, open_endpoint, read_exact, transfer_blocking,
}
use nusbip.Host.Yields.{On}
use nusbip.Host.Bounds.{AnswersFit}
use nusbip.Server.Submit.{real_ep, handle_usbip_cmd_submit}
use nusbip.Server.Bounds.{reply_data, submit_limit, submit-Within, FillsTransfers, bulk_overruns}
use nusbip.Tests.Data.{device_named, bulk_in_endpoint, mass_storage}

-- As many bytes as are asked for.
abbrev full_answer : Call → Answer
full_answer (open_endpoint i a k d) = answered []
full_answer (read_exact i a n) = answered (replicate n 7)
full_answer (transfer_blocking i a n) = answered (replicate n 7)
full_answer _ = failed 5

abbrev full : Nusb
full = record {
  answer = λ calls call. full_answer call;
  max_packet_size = λ i address. 2;
  interface_number = λ handle. 0;
}

at_most : (n : ℕ) → length (replicate {A = ℕ} n 7) ≤ n
at_most n = omega (arith, length-replicate {A = ℕ} n 7)

full-AnswersFit : AnswersFit full
full-AnswersFit = record {
  control_fits = λ calls t c. tt;
  reads_fit = λ calls i a n. at_most n;
  transfers_fit = λ calls i a n. at_most n;
}

full-FillsTransfers : FillsTransfers full
full-FillsTransfers = record {
  opens = λ calls i a. ([], refl);
  fills = λ calls i a k. (replicate k 7, refl, length-replicate k 7);
}

abbrev disk : UsbDevice
disk = record (device_named (49 ∷ [])) { string_pool = [] }

disk-DescriptorsFit : DescriptorsFit disk
unfolding configuration_descriptor interface_descriptors endpoint_descriptors default_device get
disk-DescriptorsFit = record {
  configuration_fits = omega arith;
  strings_fit = λ i s e. ground arith;
}

abbrev reads_disk : HeaderBasic
reads_disk = record { command = 1; seqnum = 7; devid = 2; direction = 1; ep = 1 }

submit-Within_example :
    On Unit
      (λ (r : Response).
        length (reply_data r) ≤ submit_limit full reads_disk 3 (replicate 8 0) disk)
      (handle_usbip_cmd_submit full true reads_disk 3 (replicate 8 0) [] disk []).0
submit-Within_example =
    submit-Within full true reads_disk 3 (replicate 8 0) [] disk [] full-AnswersFit
      disk-DescriptorsFit

found : find_ep disk (real_ep reads_disk % 2 ^ 8) ≡ some (bulk_in_endpoint, some mass_storage)
unfolding find_ep real_ep find_interface find_endpoint default_device
found = refl

bulk_overruns_example :
    (r : Response) × ((handle_usbip_cmd_submit full true reads_disk 3 (replicate 8 0) [] disk []).0
      ≡ ok r)
    × (3 < length (reply_data r))
bulk_overruns_example =
    bulk_overruns full true reads_disk 3 (replicate 8 0) [] disk bulk_in_endpoint mass_storage []
      full-FillsTransfers found refl (unfold direction in refl) (omega arith) (omega arith)
      (omega arith) (omega arith)
