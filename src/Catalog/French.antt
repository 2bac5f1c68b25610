-- ===== src/Catalog/French.antt =====
-- frontend/src/i18n/catalog.ts: the French catalogue.
use llm_evaluation.Prelude.{String}
use llm_evaluation.Catalog.Keys.{TranslationKey}

unfoldable pub fr : TranslationKey → String
fr TranslationKey.common_dismiss = "Fermer"
fr TranslationKey.common_loading = "Chargement…"
fr TranslationKey.common_not_configured = "Non configuré"
fr TranslationKey.common_not_recorded = "Non enregistré"
fr TranslationKey.common_unavailable = "Indisponible"
fr TranslationKey.common_unknown = "Inconnu"
fr TranslationKey.locale_label = "Langue de l’espace de travail"
fr TranslationKey.locale_unsupported = "Langue non prise en charge"
fr TranslationKey.provider_missing = "Le fournisseur de traductions est indisponible."
fr TranslationKey.run_launcher_context_title = "Contexte de lancement"
fr TranslationKey.run_launcher_context_description =
    "Choisissez un point de terminaison disponible et vérifiez le parcours avant la mise en file."
fr TranslationKey.run_launcher_quick_start_title = "Démarrage rapide"
fr TranslationKey.run_launcher_quick_start_description =
    "Lancez une petite évaluation intégrée sans préparer de jeu de données."
fr TranslationKey.run_launcher_dataset_description =
    "Choisissez un jeu de données prêt et mappez ses champs préparés dans un instantané d’évaluation."
fr TranslationKey.run_launcher_quick_start_benchmark = "Référentiel de démarrage rapide"
fr TranslationKey.run_launcher_offline_hint =
    "Les exemples intégrés sont petits, déterministes et disponibles hors ligne pour les tests texte et multimodaux."
fr TranslationKey.run_launcher_queue_quick_start = "Mettre le démarrage rapide en file"
fr TranslationKey.run_launcher_preflight_quick_start = "Vérifier le démarrage rapide"
fr TranslationKey.run_launcher_preflight_dataset = "Vérifier le jeu de données"
fr TranslationKey.run_launcher_not_checked = "Non vérifié"
fr TranslationKey.run_launcher_checking = "Vérification…"
fr TranslationKey.run_launcher_ready = "Prêt à mettre en file"
fr TranslationKey.run_launcher_blocked = "Bloqué"
fr TranslationKey.run_launcher_dataset_handoff =
    "Sélectionné depuis le catalogue. Vérifiez le mappage détecté avant la mise en file."
fr TranslationKey.run_launcher_schema_loading = "Lecture des champs préparés…"
fr TranslationKey.run_launcher_schema_empty =
    "Ce jeu de données ne contient aucun champ sélectionnable."
fr TranslationKey.run_launcher_schema_reference_required =
    "Ce jeu de données n’expose qu’un seul champ ; un champ de référence distinct est requis."
fr TranslationKey.run_launcher_schema_distinct_fields =
    "Les champs d’entrée et de référence doivent être différents."
fr TranslationKey.run_launcher_schema_retry = "Réessayer"
fr TranslationKey.prompt_package_title = "Packages de prompts"
fr TranslationKey.prompt_package_description =
    "Créez des instructions d’évaluation versionnées pour vos exécutions."
fr TranslationKey.prompt_package_inventory = "Inventaire des packages de prompts"
fr TranslationKey.prompt_package_empty = "Aucun package de prompts pour le moment."
fr TranslationKey.prompt_package_create = "Créer un package de prompts"
fr TranslationKey.prompt_package_name = "Nom"
fr TranslationKey.prompt_package_version = "Version"
fr TranslationKey.prompt_package_type = "Type de prompt"
fr TranslationKey.prompt_package_system_message = "Message système"
fr TranslationKey.prompt_package_user_template = "Modèle utilisateur"
fr TranslationKey.prompt_package_few_shot_examples = "Exemples few-shot (tableau JSON)"
fr TranslationKey.prompt_package_output_format = "Format de sortie (objet JSON)"
fr TranslationKey.prompt_package_response_parser = "Analyseur de réponse (objet JSON)"
fr TranslationKey.prompt_package_scoring_rule = "Règle de score (objet JSON)"
fr TranslationKey.prompt_package_change_log = "Journal des modifications"
fr TranslationKey.prompt_package_save = "Enregistrer le prompt versionné"
fr TranslationKey.prompt_package_saving = "Enregistrement…"
fr TranslationKey.prompt_package_invalid_json =
    "Utilisez du JSON valide pour les champs de configuration facultatifs."
fr TranslationKey.prompt_package_examples_must_array =
    "Les exemples few-shot doivent être un tableau JSON."
fr TranslationKey.prompt_package_config_must_object =
    "Les champs de configuration facultatifs doivent être des objets JSON."
fr TranslationKey.prompt_package_inventory_tab = "Inventaire des prompts"
fr TranslationKey.prompt_package_inventory_description =
    "Sélectionnez une version pour examiner et gérer ses instructions d'évaluation."
fr TranslationKey.prompt_package_create_tab = "Nouveau package de prompts"
fr TranslationKey.prompt_package_create_description =
    "Créez un package de prompts versionné réutilisable dans les évaluations."
fr TranslationKey.prompt_package_identity = "Identité et type"
fr TranslationKey.prompt_package_instructions = "Instructions du prompt"
fr TranslationKey.prompt_package_advanced = "Configuration avancée"
fr TranslationKey.prompt_package_template_hint = "Variables de modèle prises en charge :"
fr TranslationKey.prompt_package_variables = "Variables"
fr TranslationKey.prompt_package_no_system_message = "Aucun message système configuré."
fr TranslationKey.prompt_package_not_configured = "Non configuré"
fr TranslationKey.prompt_package_no_change_log = "Aucun journal des modifications fourni."
fr TranslationKey.prompt_package_edit = "Modifier le package de prompts"
fr TranslationKey.prompt_package_save_changes = "Enregistrer les modifications"
fr TranslationKey.prompt_package_cancel = "Annuler"
fr TranslationKey.prompt_package_duplicate = "Dupliquer comme nouvelle version"
fr TranslationKey.prompt_package_delete = "Supprimer le package"
fr TranslationKey.prompt_package_deleting = "Suppression…"
fr TranslationKey.prompt_package_delete_confirmation =
    "Supprimer {{name}} v{{version}} ? Les packages utilisés par des exécutions ou des suites sont protégés."
fr TranslationKey.prompt_package_saved_notice = "Package de prompts versionné enregistré."
fr TranslationKey.prompt_package_updated_notice = "Package de prompts mis à jour."
fr TranslationKey.prompt_package_deleted_notice = "Package de prompts supprimé."
fr TranslationKey.dataset_run_title = "Évaluation du jeu de données"
fr TranslationKey.dataset_run_dataset = "Jeu de données"
fr TranslationKey.dataset_run_prompt_package = "Pack de prompts (facultatif)"
fr TranslationKey.dataset_run_reference_field = "Champ de référence"
fr TranslationKey.dataset_run_reference_field_hint =
    "Champ de l’enregistrement contenant la réponse attendue"
fr TranslationKey.dataset_run_sample_limit = "Limite d’échantillons"
fr TranslationKey.dataset_run_endpoint = "Point de terminaison"
fr TranslationKey.dataset_run_non_ready_hint =
    "Seuls les jeux de données prêts sont répertoriés. Téléchargez et vérifiez d’abord les autres versions."
fr TranslationKey.dataset_run_queue = "Mettre l’évaluation du jeu de données en file"
fr TranslationKey.dataset_run_queued = "Évaluation du jeu de données mise en file."
fr TranslationKey.dataset_run_input_field = "Champ d’entrée"
fr TranslationKey.dataset_run_metric = "Métrique d’évaluation"
fr TranslationKey.dataset_run_metric_default = "Par défaut"
fr TranslationKey.dataset_run_metric_exact_match = "Correspondance exacte"
fr TranslationKey.dataset_run_metric_normalized_exact_match = "Correspondance exacte normalisée"
fr TranslationKey.dataset_run_metric_token_f1 = "F1 des jetons"
fr TranslationKey.dataset_run_metric_bleu = "BLEU"
fr TranslationKey.dataset_run_metric_rouge_l = "ROUGE-L"
fr TranslationKey.dataset_run_metric_llm_judge = "Juge LLM"
fr TranslationKey.dataset_run_judge_endpoint = "Point de terminaison du juge"
fr TranslationKey.dataset_run_judge_endpoint_hint =
    "Choisissez un point testé autre que le modèle évalué."
fr TranslationKey.dataset_run_judge_system_message = "Message système du juge"
fr TranslationKey.dataset_run_judge_system_message_hint =
    "Définissez les critères que le juge doit appliquer à chaque réponse."
fr TranslationKey.dataset_run_judge_configuration_required =
    "Choisissez un point de terminaison de juge distinct et fournissez un message système."
fr TranslationKey.dataset_run_metric_default_hint =
    "Par défaut utilise la règle de notation du pack de prompts, puis la correspondance exacte."
fr TranslationKey.dataset_run_metric_override_hint =
    "Choisir une métrique ici remplace la règle de notation du pack de prompts."
fr TranslationKey.dataset_run_effective_metric = "Métrique d’évaluation"
fr TranslationKey.dataset_run_start_evaluation = "Démarrer l’évaluation"
fr TranslationKey.dataset_register_title = "Enregistrer une version de jeu de données"
fr TranslationKey.dataset_register_input_field = "Champ d’entrée"
fr TranslationKey.dataset_register_reference_field = "Champ de référence (sortie)"
fr TranslationKey.dataset_register_input_field_hint =
    "Champ d’enregistrement facultatif utilisé comme entrée du prompt"
fr TranslationKey.dataset_register_reference_field_hint =
    "Champ d’enregistrement facultatif contenant la réponse attendue"
fr TranslationKey.dataset_register_metadata = "Profil d’évaluation"
fr TranslationKey.dataset_register_metadata_hint =
    "Ajoutez des métadonnées réutilisables de tâche et de langue à cette version."
fr TranslationKey.dataset_register_capabilities = "Capacités"
fr TranslationKey.dataset_register_languages = "Langues"
fr TranslationKey.dataset_register_evaluation_type = "Type d’évaluation"
fr TranslationKey.dataset_register_remove_capability = "Supprimer la capacité"
fr TranslationKey.dataset_register_remove_language = "Supprimer la langue"
fr TranslationKey.dataset_register_multi_value_hint =
    "Appuyez sur Entrée ou virgule pour ajouter ; Retour arrière supprime la dernière valeur."
fr TranslationKey.dataset_register_type_classification = "Classification"
fr TranslationKey.dataset_register_type_generation = "Génération"
fr TranslationKey.dataset_register_type_code = "Code"
fr TranslationKey.dataset_register_type_language_modeling = "Modélisation du langage"
fr TranslationKey.dataset_register_type_custom = "Personnalisé"
fr TranslationKey.dataset_register_schema_loading = "Lecture des champs préparés à sélectionner…"
fr TranslationKey.dataset_register_manual_field_hint =
    "Les champs préparés sont indisponibles ; saisissez les noms manuellement."
fr TranslationKey.dataset_register_schema_changed =
    "Un champ enregistré n’existe plus dans le schéma préparé. Choisissez un champ disponible."
