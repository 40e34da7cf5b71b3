-- ===== src/Git/Service/Tests.antt =====
-- The synchronous service on the disk of Samples.
use gitrpc.Prelude.{◌≡◌, refl, true, false, some, [], ◌∷◌, String}
use gitrpc.Git.Repo.{
  new_repo, open_handle, open_repo, init_write_pack_functions, pack_append, pack_commit,
  delete_repo, create_reference,
}
use gitrpc.Git.Samples.{World, disk, disk-IsQuiet}
use gitrpc.Git.Requests.Answers.{WriteReferenceRequest, ok_status}
use gitrpc.Git.Requests.PackStream.{PackMessage}
use gitrpc.Git.Service.{
  Answer, service_response, repo_path, delete_and_refuse, receive_data, receive_end, receive_loop,
  receive_open, receive_pack_stream, convert_repo_name_to_path, service_write_reference,
}
use gitrpc.Git.Service.Bracket.{
  receive_pack_stream-with_delete, receive_pack_stream-Answers, with_delete, write_pack, first_open,
}
use gitrpc.Git.Service.Reference.{service_write_reference-create_reference, answer_reference}

abbrev message : String → PackMessage
message name = record { repo_name = name; pack_data = 1 ∷ 2 ∷ []; done = false }

abbrev start : World
start = (false, [])

abbrev path_test : String
path_test = repo_path "test"

convert_repo_name_to_path_test : convert_repo_name_to_path "a" ≡ "/home/rstat1/Apps/test/a/"
unfolding convert_repo_name_to_path repo_path
convert_repo_name_to_path_test = refl

receive_pack_stream_test :
    receive_pack_stream disk true (message "a" ∷ message "a" ∷ []) start
    ≡ some (
      service_response "success" true ok_status,
      (false, "close" ∷ "commit" ∷ "append" ∷ "append" ∷ "open" ∷ []),
    )
unfolding receive_pack_stream receive_open receive_loop receive_data receive_end delete_and_refuse
    new_repo open_repo open_handle init_write_pack_functions pack_append pack_commit delete_repo
    repo_path
receive_pack_stream_test = refl

receive_pack_stream-with_delete_example :
    receive_pack_stream disk true (message "a" ∷ message "a" ∷ []) start
    ≡ with_delete disk true (first_open disk true (message "a") start).1 (
        write_pack disk true
          (message "a" ∷ message "a" ∷ [])
          (first_open disk true (message "a") start).1
          (first_open disk true (message "a") start).2)
unfolding open_repo open_handle init_write_pack_functions pack_append repo_path
receive_pack_stream-with_delete_example =
    receive_pack_stream-with_delete disk true (message "a") (message "a" ∷ []) start

receive_pack_stream-Answers_example :
    (out : Answer disk true) × (receive_pack_stream disk true (message "a" ∷ message "a" ∷ []) start
      ≡ some out)
receive_pack_stream-Answers_example =
    receive_pack_stream-Answers disk true (message "a" ∷ message "a" ∷ []) start disk-IsQuiet

abbrev request : WriteReferenceRequest
request = record { ref_name = "refs/heads/x"; ref_rev = "01" }

service_write_reference-create_reference_example :
    some (service_write_reference disk true request start)
    ≡ some (
        answer_reference disk true "/home/rstat1/Apps/test/new-server"
          ("success", (false, "head" ∷ "reference" ∷ "open" ∷ [])))
unfolding create_reference repo_path
service_write_reference-create_reference_example =
    service_write_reference-create_reference disk true request start disk-IsQuiet
