-- ===== src/Catalog/Malay.antt =====
-- frontend/src/i18n/catalog.ts: the Malay catalogue.
use llm_evaluation.Prelude.{String}
use llm_evaluation.Catalog.Keys.{TranslationKey}

unfoldable pub ms : TranslationKey → String
ms TranslationKey.common_dismiss = "Tutup"
ms TranslationKey.common_loading = "Memuatkan…"
ms TranslationKey.common_not_configured = "Belum dikonfigurasikan"
ms TranslationKey.common_not_recorded = "Tidak direkodkan"
ms TranslationKey.common_unavailable = "Tidak tersedia"
ms TranslationKey.common_unknown = "Tidak diketahui"
ms TranslationKey.locale_label = "Bahasa ruang kerja"
ms TranslationKey.locale_unsupported = "Bahasa tidak disokong"
ms TranslationKey.provider_missing = "Penyedia terjemahan tidak tersedia."
ms TranslationKey.run_launcher_context_title = "Konteks pelancaran"
ms TranslationKey.run_launcher_context_description =
    "Pilih satu titik akhir yang tersedia dan semak laluan pelancaran sebelum dimasukkan ke dalam baris."
ms TranslationKey.run_launcher_quick_start_title = "Mula pantas"
ms TranslationKey.run_launcher_quick_start_description =
    "Jalankan penilaian terbina dalam yang kecil tanpa menyediakan set data dahulu."
ms TranslationKey.run_launcher_dataset_description =
    "Pilih set data yang sedia dan petakan medannya ke dalam petikan penilaian."
ms TranslationKey.run_launcher_quick_start_benchmark = "Penanda aras mula pantas"
ms TranslationKey.run_launcher_offline_hint =
    "Sampel terbina dalam kecil, deterministik dan tersedia di luar talian untuk semakan teks dan modaliti."
ms TranslationKey.run_launcher_queue_quick_start = "Masukkan mula pantas ke dalam baris"
ms TranslationKey.run_launcher_preflight_quick_start = "Prasemak mula pantas"
ms TranslationKey.run_launcher_preflight_dataset = "Prasemak set data"
ms TranslationKey.run_launcher_not_checked = "Belum disemak"
ms TranslationKey.run_launcher_checking = "Sedang menyemak…"
ms TranslationKey.run_launcher_ready = "Sedia dimasukkan ke dalam baris"
ms TranslationKey.run_launcher_blocked = "Disekat"
ms TranslationKey.run_launcher_dataset_handoff =
    "Dipilih daripada katalog set data. Semak pemetaan medan sebelum dimasukkan ke dalam baris."
ms TranslationKey.run_launcher_schema_loading = "Membaca medan set data yang disediakan…"
ms TranslationKey.run_launcher_schema_empty = "Set data ini tiada medan yang boleh dipilih."
ms TranslationKey.run_launcher_schema_reference_required =
    "Set data ini hanya mendedahkan satu medan; medan rujukan yang berbeza diperlukan."
ms TranslationKey.run_launcher_schema_distinct_fields =
    "Medan input dan medan rujukan mestilah berbeza."
ms TranslationKey.run_launcher_schema_retry = "Cuba semula"
ms TranslationKey.prompt_package_title = "Pakej gesaan"
ms TranslationKey.prompt_package_description = "Cipta arahan penilaian berversi untuk larian anda."
ms TranslationKey.prompt_package_inventory = "Inventori pakej gesaan"
ms TranslationKey.prompt_package_empty = "Belum ada pakej gesaan."
ms TranslationKey.prompt_package_create = "Cipta pakej gesaan"
ms TranslationKey.prompt_package_name = "Nama"
ms TranslationKey.prompt_package_version = "Versi"
ms TranslationKey.prompt_package_type = "Jenis gesaan"
ms TranslationKey.prompt_package_system_message = "Mesej sistem"
ms TranslationKey.prompt_package_user_template = "Templat pengguna"
ms TranslationKey.prompt_package_few_shot_examples = "Contoh few-shot (tatasusunan JSON)"
ms TranslationKey.prompt_package_output_format = "Format output (objek JSON)"
ms TranslationKey.prompt_package_response_parser = "Penghurai respons (objek JSON)"
ms TranslationKey.prompt_package_scoring_rule = "Peraturan pemarkahan (objek JSON)"
ms TranslationKey.prompt_package_change_log = "Log perubahan"
ms TranslationKey.prompt_package_save = "Simpan gesaan berversi"
ms TranslationKey.prompt_package_saving = "Menyimpan…"
ms TranslationKey.prompt_package_invalid_json = "Gunakan JSON sah untuk medan konfigurasi pilihan."
ms TranslationKey.prompt_package_examples_must_array = "Contoh few-shot mestilah tatasusunan JSON."
ms TranslationKey.prompt_package_config_must_object =
    "Medan konfigurasi pilihan mestilah objek JSON."
ms TranslationKey.prompt_package_inventory_tab = "Inventori gesaan"
ms TranslationKey.prompt_package_inventory_description =
    "Pilih versi untuk menyemak dan mengurus arahan penilaiannya."
ms TranslationKey.prompt_package_create_tab = "Pakej gesaan baharu"
ms TranslationKey.prompt_package_create_description =
    "Cipta pakej gesaan berversi yang boleh digunakan semula merentas penilaian."
ms TranslationKey.prompt_package_identity = "Identiti dan jenis"
ms TranslationKey.prompt_package_instructions = "Arahan gesaan"
ms TranslationKey.prompt_package_advanced = "Konfigurasi lanjutan"
ms TranslationKey.prompt_package_template_hint = "Pemboleh ubah templat yang disokong:"
ms TranslationKey.prompt_package_variables = "Pemboleh ubah"
ms TranslationKey.prompt_package_no_system_message = "Tiada mesej sistem dikonfigurasikan."
ms TranslationKey.prompt_package_not_configured = "Tidak dikonfigurasikan"
ms TranslationKey.prompt_package_no_change_log = "Tiada log perubahan diberikan."
ms TranslationKey.prompt_package_edit = "Edit pakej gesaan"
ms TranslationKey.prompt_package_save_changes = "Simpan perubahan"
ms TranslationKey.prompt_package_cancel = "Batal"
ms TranslationKey.prompt_package_duplicate = "Duplikasi sebagai versi baharu"
ms TranslationKey.prompt_package_delete = "Padam pakej"
ms TranslationKey.prompt_package_deleting = "Memadam…"
ms TranslationKey.prompt_package_delete_confirmation =
    "Padam {{name}} v{{version}}? Pakej yang digunakan oleh larian atau suite adalah dilindungi."
ms TranslationKey.prompt_package_saved_notice = "Pakej gesaan berversi telah disimpan."
ms TranslationKey.prompt_package_updated_notice = "Pakej gesaan telah dikemas kini."
ms TranslationKey.prompt_package_deleted_notice = "Pakej gesaan telah dipadam."
ms TranslationKey.dataset_run_title = "Penilaian set data"
ms TranslationKey.dataset_run_dataset = "Set data"
ms TranslationKey.dataset_run_prompt_package = "Pakej prom (pilihan)"
ms TranslationKey.dataset_run_reference_field = "Medan rujukan"
ms TranslationKey.dataset_run_reference_field_hint =
    "Medan rekod yang mengandungi jawapan yang dijangkakan"
ms TranslationKey.dataset_run_sample_limit = "Had sampel"
ms TranslationKey.dataset_run_endpoint = "Titik akhir"
ms TranslationKey.dataset_run_non_ready_hint =
    "Hanya set data yang sedia disenaraikan. Muat turun dan sahkan versi lain dahulu."
ms TranslationKey.dataset_run_queue = "Letakkan penilaian set data dalam baris"
ms TranslationKey.dataset_run_queued = "Penilaian set data telah dimasukkan ke dalam baris."
ms TranslationKey.dataset_run_input_field = "Medan input"
ms TranslationKey.dataset_run_metric = "Metrik penilaian"
ms TranslationKey.dataset_run_metric_default = "Lalai"
ms TranslationKey.dataset_run_metric_exact_match = "Padanan tepat"
ms TranslationKey.dataset_run_metric_normalized_exact_match = "Padanan tepat ternormal"
ms TranslationKey.dataset_run_metric_token_f1 = "F1 token"
ms TranslationKey.dataset_run_metric_bleu = "BLEU"
ms TranslationKey.dataset_run_metric_rouge_l = "ROUGE-L"
ms TranslationKey.dataset_run_metric_llm_judge = "LLM sebagai hakim"
ms TranslationKey.dataset_run_judge_endpoint = "Titik akhir hakim"
ms TranslationKey.dataset_run_judge_endpoint_hint =
    "Pilih titik akhir yang telah diuji dan berbeza daripada model yang dinilai."
ms TranslationKey.dataset_run_judge_system_message = "Mesej sistem hakim"
ms TranslationKey.dataset_run_judge_system_message_hint =
    "Takrifkan kriteria penilaian yang mesti digunakan oleh hakim pada setiap jawapan."
ms TranslationKey.dataset_run_judge_configuration_required =
    "Pilih titik akhir hakim yang berasingan dan berikan mesej sistem."
ms TranslationKey.dataset_run_metric_default_hint =
    "Lalai menggunakan peraturan pemarkahan pakej prom, kemudian kembali kepada padanan tepat."
ms TranslationKey.dataset_run_metric_override_hint =
    "Memilih metrik di sini akan mengatasi peraturan pemarkahan pakej prom."
ms TranslationKey.dataset_run_effective_metric = "Metrik penilaian"
ms TranslationKey.dataset_run_start_evaluation = "Mulakan penilaian"
ms TranslationKey.dataset_register_title = "Daftar versi set data"
ms TranslationKey.dataset_register_input_field = "Medan input"
ms TranslationKey.dataset_register_reference_field = "Medan rujukan (output)"
ms TranslationKey.dataset_register_input_field_hint =
    "Medan rekod pilihan yang digunakan sebagai input prom"
ms TranslationKey.dataset_register_reference_field_hint =
    "Medan rekod pilihan yang mengandungi jawapan yang dijangkakan"
ms TranslationKey.dataset_register_metadata = "Profil penilaian"
ms TranslationKey.dataset_register_metadata_hint =
    "Lampirkan metadata tugas dan bahasa yang boleh diguna semula pada versi ini."
ms TranslationKey.dataset_register_capabilities = "Keupayaan"
ms TranslationKey.dataset_register_languages = "Bahasa"
ms TranslationKey.dataset_register_evaluation_type = "Jenis penilaian"
ms TranslationKey.dataset_register_remove_capability = "Alih keluar keupayaan"
ms TranslationKey.dataset_register_remove_language = "Alih keluar bahasa"
ms TranslationKey.dataset_register_multi_value_hint =
    "Tekan Enter atau koma untuk menambah; Backspace membuang nilai terakhir."
ms TranslationKey.dataset_register_type_classification = "Pengelasan"
ms TranslationKey.dataset_register_type_generation = "Penjanaan"
ms TranslationKey.dataset_register_type_code = "Kod"
ms TranslationKey.dataset_register_type_language_modeling = "Pemodelan bahasa"
ms TranslationKey.dataset_register_type_custom = "Tersuai"
ms TranslationKey.dataset_register_schema_loading = "Membaca medan yang disediakan untuk dipilih…"
ms TranslationKey.dataset_register_manual_field_hint =
    "Medan yang disediakan tidak tersedia; masukkan nama medan secara manual."
ms TranslationKey.dataset_register_schema_changed =
    "Medan tersimpan tiada dalam skema yang disediakan. Pilih medan tersedia sebelum menyimpan."
