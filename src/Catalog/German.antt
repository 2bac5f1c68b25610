-- ===== src/Catalog/German.antt =====
-- frontend/src/i18n/catalog.ts: the German catalogue.
use llm_evaluation.Prelude.{String}
use llm_evaluation.Catalog.Keys.{TranslationKey}

unfoldable pub de : TranslationKey → String
de TranslationKey.common_dismiss = "Schließen"
de TranslationKey.common_loading = "Wird geladen…"
de TranslationKey.common_not_configured = "Nicht konfiguriert"
de TranslationKey.common_not_recorded = "Nicht erfasst"
de TranslationKey.common_unavailable = "Nicht verfügbar"
de TranslationKey.common_unknown = "Unbekannt"
de TranslationKey.locale_label = "Arbeitsbereichssprache"
de TranslationKey.locale_unsupported = "Nicht unterstützte Sprache"
de TranslationKey.provider_missing = "Der Übersetzungsanbieter ist nicht verfügbar."
de TranslationKey.run_launcher_context_title = "Startkontext"
de TranslationKey.run_launcher_context_description =
    "Wählen Sie einen verfügbaren Endpunkt und prüfen Sie den Startweg vor dem Einreihen."
de TranslationKey.run_launcher_quick_start_title = "Schnellstart"
de TranslationKey.run_launcher_quick_start_description =
    "Führen Sie eine kleine integrierte Evaluierung ohne vorbereiteten Datensatz aus."
de TranslationKey.run_launcher_dataset_description =
    "Wählen Sie einen bereiten Datensatz und ordnen Sie seine Felder dem Evaluierungssnapshot zu."
de TranslationKey.run_launcher_quick_start_benchmark = "Schnellstart-Benchmark"
de TranslationKey.run_launcher_offline_hint =
    "Integrierte Beispiele sind klein, deterministisch und offline für Text- und Modalitätsprüfungen verfügbar."
de TranslationKey.run_launcher_queue_quick_start = "Schnellstart einreihen"
de TranslationKey.run_launcher_preflight_quick_start = "Schnellstart prüfen"
de TranslationKey.run_launcher_preflight_dataset = "Datensatz prüfen"
de TranslationKey.run_launcher_not_checked = "Nicht geprüft"
de TranslationKey.run_launcher_checking = "Wird geprüft…"
de TranslationKey.run_launcher_ready = "Bereit zum Einreihen"
de TranslationKey.run_launcher_blocked = "Blockiert"
de TranslationKey.run_launcher_dataset_handoff =
    "Aus dem Datensatzkatalog ausgewählt. Prüfen Sie vor dem Einreihen die erkannte Feldzuordnung."
de TranslationKey.run_launcher_schema_loading = "Vorbereitete Datensatzfelder werden gelesen…"
de TranslationKey.run_launcher_schema_empty = "Dieser Datensatz hat keine auswählbaren Felder."
de TranslationKey.run_launcher_schema_reference_required =
    "Dieser Datensatz enthält nur ein Feld; ein separates Referenzfeld ist erforderlich."
de TranslationKey.run_launcher_schema_distinct_fields =
    "Eingabe- und Referenzfeld müssen sich unterscheiden."
de TranslationKey.run_launcher_schema_retry = "Erneut versuchen"
de TranslationKey.prompt_package_title = "Prompt-Pakete"
de TranslationKey.prompt_package_description =
    "Erstellen Sie versionierte Evaluierungsanweisungen für Ihre Ausführungen."
de TranslationKey.prompt_package_inventory = "Prompt-Paketübersicht"
de TranslationKey.prompt_package_empty = "Noch keine Prompt-Pakete."
de TranslationKey.prompt_package_create = "Prompt-Paket erstellen"
de TranslationKey.prompt_package_name = "Name"
de TranslationKey.prompt_package_version = "Version"
de TranslationKey.prompt_package_type = "Prompt-Typ"
de TranslationKey.prompt_package_system_message = "Systemnachricht"
de TranslationKey.prompt_package_user_template = "Benutzervorlage"
de TranslationKey.prompt_package_few_shot_examples = "Few-Shot-Beispiele (JSON-Array)"
de TranslationKey.prompt_package_output_format = "Ausgabeformat (JSON-Objekt)"
de TranslationKey.prompt_package_response_parser = "Antwortparser (JSON-Objekt)"
de TranslationKey.prompt_package_scoring_rule = "Bewertungsregel (JSON-Objekt)"
de TranslationKey.prompt_package_change_log = "Änderungsprotokoll"
de TranslationKey.prompt_package_save = "Versionierten Prompt speichern"
de TranslationKey.prompt_package_saving = "Speichern…"
de TranslationKey.prompt_package_invalid_json =
    "Verwenden Sie gültiges JSON für optionale Konfigurationsfelder."
de TranslationKey.prompt_package_examples_must_array =
    "Few-Shot-Beispiele müssen ein JSON-Array sein."
de TranslationKey.prompt_package_config_must_object =
    "Optionale Konfigurationsfelder müssen JSON-Objekte sein."
de TranslationKey.prompt_package_inventory_tab = "Prompt-Inventar"
de TranslationKey.prompt_package_inventory_description =
    "Wählen Sie eine Version aus, um ihre Evaluierungsanweisungen zu prüfen und zu verwalten."
de TranslationKey.prompt_package_create_tab = "Neues Prompt-Paket"
de TranslationKey.prompt_package_create_description =
    "Erstellen Sie ein versioniertes Prompt-Paket zur Wiederverwendung in Evaluierungen."
de TranslationKey.prompt_package_identity = "Identität und Typ"
de TranslationKey.prompt_package_instructions = "Prompt-Anweisungen"
de TranslationKey.prompt_package_advanced = "Erweiterte Konfiguration"
de TranslationKey.prompt_package_template_hint = "Unterstützte Vorlagenvariablen:"
de TranslationKey.prompt_package_variables = "Variablen"
de TranslationKey.prompt_package_no_system_message = "Keine Systemnachricht konfiguriert."
de TranslationKey.prompt_package_not_configured = "Nicht konfiguriert"
de TranslationKey.prompt_package_no_change_log = "Kein Änderungsprotokoll vorhanden."
de TranslationKey.prompt_package_edit = "Prompt-Paket bearbeiten"
de TranslationKey.prompt_package_save_changes = "Änderungen speichern"
de TranslationKey.prompt_package_cancel = "Abbrechen"
de TranslationKey.prompt_package_duplicate = "Als neue Version duplizieren"
de TranslationKey.prompt_package_delete = "Paket löschen"
de TranslationKey.prompt_package_deleting = "Wird gelöscht…"
de TranslationKey.prompt_package_delete_confirmation =
    "{{name}} v{{version}} löschen? Pakete, die von Läufen oder Suiten verwendet werden, sind geschützt."
de TranslationKey.prompt_package_saved_notice = "Versioniertes Prompt-Paket gespeichert."
de TranslationKey.prompt_package_updated_notice = "Prompt-Paket aktualisiert."
de TranslationKey.prompt_package_deleted_notice = "Prompt-Paket gelöscht."
de TranslationKey.dataset_run_title = "Datensatz-Evaluierung"
de TranslationKey.dataset_run_dataset = "Datensatz"
de TranslationKey.dataset_run_prompt_package = "Prompt-Paket (optional)"
de TranslationKey.dataset_run_reference_field = "Referenzfeld"
de TranslationKey.dataset_run_reference_field_hint = "Datensatzfeld mit der erwarteten Antwort"
de TranslationKey.dataset_run_sample_limit = "Stichprobenlimit"
de TranslationKey.dataset_run_endpoint = "Endpunkt"
de TranslationKey.dataset_run_non_ready_hint =
    "Nur bereite Datensätze werden aufgelistet. Laden Sie andere Versionen zuerst herunter und prüfen Sie sie."
de TranslationKey.dataset_run_queue = "Datensatz-Evaluierung einreihen"
de TranslationKey.dataset_run_queued = "Datensatz-Evaluierung in die Warteschlange eingereiht."
de TranslationKey.dataset_run_input_field = "Eingabefeld"
de TranslationKey.dataset_run_metric = "Evaluierungsmetrik"
de TranslationKey.dataset_run_metric_default = "Standard"
de TranslationKey.dataset_run_metric_exact_match = "Exakte Übereinstimmung"
de TranslationKey.dataset_run_metric_normalized_exact_match = "Normalisierte exakte Übereinstimmung"
de TranslationKey.dataset_run_metric_token_f1 = "Token-F1"
de TranslationKey.dataset_run_metric_bleu = "BLEU"
de TranslationKey.dataset_run_metric_rouge_l = "ROUGE-L"
de TranslationKey.dataset_run_metric_llm_judge = "LLM als Bewerter"
de TranslationKey.dataset_run_judge_endpoint = "Bewerter-Endpunkt"
de TranslationKey.dataset_run_judge_endpoint_hint =
    "Wählen Sie einen getesteten Endpunkt, der nicht das bewertete Modell ist."
de TranslationKey.dataset_run_judge_system_message = "Bewerter-Systemnachricht"
de TranslationKey.dataset_run_judge_system_message_hint =
    "Definieren Sie die Kriterien, die der Bewerter auf jede Antwort anwenden muss."
de TranslationKey.dataset_run_judge_configuration_required =
    "Wählen Sie einen separaten Bewerter-Endpunkt und geben Sie eine Systemnachricht ein."
de TranslationKey.dataset_run_metric_default_hint =
    "Standard verwendet zuerst die Bewertungsregel des Prompt-Pakets und sonst exakte Übereinstimmung."
de TranslationKey.dataset_run_metric_override_hint =
    "Die Auswahl einer Metrik überschreibt hier die Bewertungsregel des Prompt-Pakets."
de TranslationKey.dataset_run_effective_metric = "Evaluierungsmetrik"
de TranslationKey.dataset_run_start_evaluation = "Evaluierung starten"
de TranslationKey.dataset_register_title = "Datensatzversion registrieren"
de TranslationKey.dataset_register_input_field = "Eingabefeld"
de TranslationKey.dataset_register_reference_field = "Referenzfeld (Ausgabe)"
de TranslationKey.dataset_register_input_field_hint = "Optionaler Datensatzfeld als Prompt-Eingabe"
de TranslationKey.dataset_register_reference_field_hint =
    "Optionaler Datensatzfeld mit der erwarteten Antwort"
de TranslationKey.dataset_register_metadata = "Evaluierungsprofil"
de TranslationKey.dataset_register_metadata_hint =
    "Fügen Sie dieser Version wiederverwendbare Aufgaben- und Sprachmetadaten hinzu."
de TranslationKey.dataset_register_capabilities = "Fähigkeiten"
de TranslationKey.dataset_register_languages = "Sprachen"
de TranslationKey.dataset_register_evaluation_type = "Evaluierungstyp"
de TranslationKey.dataset_register_remove_capability = "Fähigkeit entfernen"
de TranslationKey.dataset_register_remove_language = "Sprache entfernen"
de TranslationKey.dataset_register_multi_value_hint =
    "Mit Eingabe oder Komma hinzufügen; Rücktaste entfernt den letzten Wert."
de TranslationKey.dataset_register_type_classification = "Klassifikation"
de TranslationKey.dataset_register_type_generation = "Generierung"
de TranslationKey.dataset_register_type_code = "Code"
de TranslationKey.dataset_register_type_language_modeling = "Sprachmodellierung"
de TranslationKey.dataset_register_type_custom = "Benutzerdefiniert"
de TranslationKey.dataset_register_schema_loading =
    "Vorbereitete Felder werden zur Auswahl gelesen…"
de TranslationKey.dataset_register_manual_field_hint =
    "Vorbereitete Felder sind nicht verfügbar; geben Sie Feldnamen manuell ein."
de TranslationKey.dataset_register_schema_changed =
    "Ein gespeichertes Feld fehlt im vorbereiteten Schema. Wählen Sie vor dem Speichern ein verfügbares Feld."
